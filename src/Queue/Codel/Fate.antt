-- ===== src/Queue/Codel/Fate.antt =====
-- queue/codel.go: what becomes of a task that the pool has accepted.
use load_shedding.Prelude.{ℕ, ◌+◌, ◌≡◌, refl, List, [], ◌∷◌, arith, length}
use load_shedding.Prelude.Bag.{Pick-total, Pick-length, total, total-append, count, one_if_eq}
use load_shedding.Prelude.Int.{ℤ, pos}
use load_shedding.Prelude.Word.{wrap, incr-wrap_pos}
use load_shedding.Prelude.Time.{Time}
use load_shedding.Prelude.Float.{Float64}
use load_shedding.Queue.Gate.{Gate}
use load_shedding.Queue.Codel.{
  CodelConfig, Item, new_codel, worker_lock, arrive, enter, drop_callback, task_end, run_begin,
  run_end, close, stats,
}
use load_shedding.Queue.Codel.System.{
  System, start, arrived, entered, worked, Step, arrive_step, enter_step, worker_step, drop_step,
  begin_step, end_step, leave_step, close_step, toggle_step, Reach, init, next,
}
use load_shedding.Queue.Codel.Bounds.{split_last-total}

abbrev pub is_task : {D : Type 0} → ℕ → Item D → ℕ
is_task a it = one_if_eq a it.task

module _ {G D : Type 0} where
  -- The items that wait or that a worker holds, each with a weight.
  abbrev pub held : (Item D → ℕ) → System G D → ℕ
  held w s = total w s.pool.buf + total w s.falling + total w s.serving + total w s.executing

  record Inv (a : ℕ) (s : System G D) : Type 0 where
    whole : count a s.admitted ≡ held (is_task a) s + count a s.ran + count a s.shed
    accepted : s.pool.accepted ≡ wrap (pos (length s.admitted))
    dropped : s.pool.dropped ≡ wrap (pos (length s.falling + length s.shed))

  module _ (fl : Float64) (ops : Gate G D) (a : ℕ) where
    worker-Inv :
        (now : Time) (s : System G D) (buf : List (Item D))
        → s.pool.buf ≡ buf
        → Inv a s
        → Inv a (worked (worker_lock fl now s.pool) s)
    unfolding worker_lock worked
    worker-Inv now s [] e v = ground arith
    worker-Inv now s (it ∷ rest) e v = ground (
      arith,
      split_last-total {0} (is_task a) it rest,
      incr-wrap_pos (length s.falling + length s.shed),
    )

    Step-Inv : {s t : System G D} → Step fl ops s t → Inv a s → Inv a t
    unfolding arrive arrived enter entered drop_callback task_end run_begin run_end close
    Step-Inv (arrive_step task) v = ground arith
    Step-Inv {s} (enter_step now task token rest p) v = ground (
      arith,
      total-append {0} (is_task a) s.pool.buf
          (record { task = task; token = token; enq = now } ∷ []),
      incr-wrap_pos (length s.admitted),
    )
    Step-Inv {s} (worker_step now h) v = worker-Inv now s s.pool.buf refl v
    Step-Inv (drop_step it rest p) v = ground (arith, Pick-total (is_task a) p, Pick-length p)
    Step-Inv (begin_step it rest p) v = ground (arith, Pick-total (is_task a) p)
    Step-Inv (end_step it outcome rest p) v = ground (arith, Pick-total (is_task a) p)
    Step-Inv (leave_step h) v = ground arith
    Step-Inv close_step v = ground arith
    Step-Inv (toggle_step on) v = ground arith

    init-Inv : (cfg : CodelConfig G) (usage : ℕ → ℤ) → Inv a (start {D = D} (new_codel cfg usage))
    unfolding new_codel wrap
    init-Inv cfg usage = ground arith

    Reach-Inv : {cfg : CodelConfig G} {s : System G D} → Reach fl ops cfg s → Inv a s
    Reach-Inv {cfg} (init usage) = init-Inv cfg usage
    Reach-Inv (next r st) = Step-Inv st (Reach-Inv r)

    -- No accepted task is lost, and none has two fates: in every state that a new pool reaches, a task is
    -- found among the queued, dropped-but-not-told, about-to-run and running items, the tasks that have
    -- run and those whose drop callback was called, together exactly as often as it was accepted.
    pub accepted_task_fate :
        {cfg : CodelConfig G} {s : System G D}
        → Reach fl ops cfg s
        → count a s.admitted ≡ held (is_task a) s + count a s.ran + count a s.shed
    accepted_task_fate r = (Reach-Inv r).whole

  -- The counters `Accepted` and `Dropped` of `Stats` are exact modulo 2^64 in every reachable state: the
  -- number of submissions that returned nil, and the number of items dropped at dequeue.
  counters_exact :
      (fl : Float64) (ops : Gate G D) {cfg : CodelConfig G} {s : System G D}
      → Reach fl ops cfg s
      → ((stats s.pool).accepted ≡ wrap (pos (length s.admitted)))
        × ((stats s.pool).dropped ≡ wrap (pos (length s.falling + length s.shed)))
  unfolding stats
  counters_exact fl ops r = let v = Reach-Inv fl ops 0 r in (v.accepted, v.dropped)
