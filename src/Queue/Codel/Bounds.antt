-- ===== src/Queue/Codel/Bounds.antt =====
-- queue/codel.go: the queue keeps to its capacity, and the counter of active tasks is exact.
use load_shedding.Prelude.{ℕ, ◌+◌, ◌<◌, ◌≡◌, refl, List, [], ◌∷◌, arith, length, length-append}
use load_shedding.Prelude.Bag.{Pick-length, total}
use load_shedding.Prelude.Int.{ℤ, pos, ◌≤ℤ◌}
use load_shedding.Prelude.Word.{IsInt64, incr_pos, decr_pos}
use load_shedding.Prelude.Time.{Time}
use load_shedding.Prelude.Float.{Float64}
use load_shedding.Queue.Gate.{Gate}
use load_shedding.Queue.Codel.{
  CodelConfig, Item, new_codel, worker_lock, arrive, enter, drop_callback, task_end, run_begin,
  run_end, close, split_last, at_least_one,
}
use load_shedding.Queue.Codel.System.{
  System, start, arrived, entered, worked, Step, arrive_step, enter_step, worker_step, drop_step,
  begin_step, end_step, leave_step, close_step, toggle_step, Reach, init, next,
}

-- The sum of a weight over the two parts that `split_last` gives.
pub split_last-total {ℓ} :
    {A : Type ℓ} (w : A → ℕ) (x : A) (xs : List A)
    → total w (split_last x xs).0 + w (split_last x xs).1 ≡ w x + total w xs
unfolding split_last
split_last-total w x [] = omega arith
split_last-total w x (y ∷ ys) = omega (arith, split_last-total w y ys)

pub length-split_last {ℓ} :
    {A : Type ℓ} (x : A) (xs : List A) → length (split_last x xs).0 ≡ length xs
unfolding split_last
length-split_last x [] = refl
length-split_last x (y ∷ ys) = omega (arith, length-split_last y ys)

module _ {G D : Type 0} where
  -- How many workers there are, wherever they stand.
  abbrev pub staff : System G D → ℕ
  staff s = s.idle + s.exited + length s.falling + length s.serving + length s.executing + s.ending

  abbrev busy : System G D → ℕ
  busy s = length s.executing + s.ending

  pub record Inv (cfg : CodelConfig G) (s : System G D) : Type 0 where
    pub same_workers : s.pool.workers ≡ at_least_one cfg.workers
    pub same_capacity : s.pool.capacity ≡ at_least_one cfg.capacity
    pub manned : pos (staff s) ≡ s.pool.workers
    pub counted : s.pool.active ≡ pos (busy s)
    pub bounded : pos (length s.pool.buf) ≤ℤ s.pool.capacity

  module _ (fl : Float64) (ops : Gate G D) (cfg : CodelConfig G) (small : IsInt64 cfg.workers) where
    worker-Inv :
        (now : Time) (s : System G D) (buf : List (Item D))
        → s.pool.buf ≡ buf
        → 0 < s.idle
        → Inv cfg s
        → Inv cfg (worked (worker_lock fl now s.pool) s)
    unfolding worker_lock worked
    worker-Inv now s [] e h v = ground arith
    worker-Inv now s (it ∷ rest) e h v = ground (arith, length-split_last {0} it rest)

    Step-Inv : {s t : System G D} → Step fl ops s t → Inv cfg s → Inv cfg t
    unfolding arrive arrived enter entered drop_callback task_end run_begin run_end close
    Step-Inv (arrive_step task) v = ground arith
    Step-Inv {s} (enter_step now task token rest p) v = ground (
      arith,
      Pick-length p,
      length-append s.pool.buf (record { task = task; token = token; enq = now } ∷ []),
    )
    Step-Inv {s} (worker_step now h) v = worker-Inv now s s.pool.buf refl h v
    Step-Inv (drop_step it rest p) v = ground (arith, Pick-length p)
    Step-Inv {s} (begin_step it rest p) v = ground (arith, Pick-length p, incr_pos (busy s))
    Step-Inv (end_step it outcome rest p) v = ground (arith, Pick-length p)
    Step-Inv {s} (leave_step h) v = ground (arith, decr_pos (busy s))
    Step-Inv close_step v = ground arith
    Step-Inv (toggle_step on) v = ground arith

    init-Inv : (usage : ℕ → ℤ) → Inv cfg (start {D = D} (new_codel cfg usage))
    unfolding new_codel
    init-Inv usage = ground arith

    Reach-Inv : {s : System G D} → Reach fl ops cfg s → Inv cfg s
    Reach-Inv (init usage) = init-Inv usage
    Reach-Inv (next r st) = Step-Inv st (Reach-Inv r)

    -- In every state that a new pool reaches, the queue holds at most `Capacity` items (a value below 1
    -- counts as 1), and the counter of active tasks is the number of workers inside `run`, which is at
    -- most `Workers` (again at least 1). `Workers` is an int64.
    pub queue_bounded :
        {s : System G D}
        → Reach fl ops cfg s
        → (pos (length s.pool.buf) ≤ℤ at_least_one cfg.capacity)
          × (s.pool.active ≡ pos (length s.executing + s.ending))
          × (s.pool.active ≤ℤ at_least_one cfg.workers)
    queue_bounded r = let v = Reach-Inv r in ground (arith, v)
