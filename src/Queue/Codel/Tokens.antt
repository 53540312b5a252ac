-- ===== src/Queue/Codel/Tokens.antt =====
-- queue/codel.go: the contract of `Gate`: the callback of each admission is called exactly once.
use load_shedding.Prelude.{ℕ, ◌+◌, ◌≡◌, refl, true, false, Option, some, List, [], ◌∷◌, arith}
use load_shedding.Prelude.Bag.{Pick-total, total, total-append}
use load_shedding.Prelude.Int.{ℤ}
use load_shedding.Prelude.Time.{Time}
use load_shedding.Prelude.Float.{Float64}
use load_shedding.Queue.Gate.{Gate}
use load_shedding.Queue.Gate.Counted.{
  Counted, counted, issued, called, is_open, is_explicit, gate_allow-Counts, gate_done-Counts,
  set_gate_enabled-Counts,
}
use load_shedding.Queue.Task.{success_of}
use load_shedding.Queue.Codel.{
  CodelConfig, Item, new_codel, worker_lock, arrive, enter, drop_callback, task_end, run_begin,
  run_end, close,
}
use load_shedding.Queue.Codel.System.{
  System, start, arrived, entered, worked, Step, arrive_step, enter_step, worker_step, drop_step,
  begin_step, end_step, leave_step, close_step, toggle_step, Reach, init, next,
}
use load_shedding.Queue.Codel.Bounds.{split_last-total}
use load_shedding.Queue.Codel.Fate.{held}

abbrev pub entrant_token : {D : Type 0} → ℕ × Option D → ℕ
entrant_token e = is_open e.1

abbrev pub item_token : {D : Type 0} → Item D → ℕ
item_token it = is_open it.token

-- The callbacks in the hands of submitters, of the queue and of workers.
abbrev pub outstanding : {G D : Type 0} → System G D → ℕ
outstanding s = total entrant_token s.entering + held item_token s

module _ {G D : Type 0} where
  record Inv (s : System (Counted G) D) : Type 0 where
    gated : is_explicit s.pool.gate ≡ true
    balanced : issued s.pool.gate ≡ called s.pool.gate + outstanding s

  module _ (fl : Float64) (ops : Gate G D) where
    worker-Inv :
        (now : Time) (s : System (Counted G) D) (buf : List (Item D))
        → s.pool.buf ≡ buf
        → Inv s
        → Inv (worked (worker_lock fl now s.pool) s)
    unfolding worker_lock worked
    worker-Inv now s [] e v = ground arith
    worker-Inv now s (it ∷ rest) e v = ground (arith, split_last-total {0} item_token it rest)

    Step-Inv : {s t : System (Counted G) D} → Step fl (counted ops) s t → Inv s → Inv t
    unfolding arrive arrived enter entered drop_callback task_end run_begin run_end close
    Step-Inv {s} (arrive_step task) v = ground (arith, gate_allow-Counts ops s.pool.gate v.gated)
    Step-Inv {s} (enter_step now task token rest p) v = ground (
      arith,
      gate_done-Counts ops token false s.pool.gate v.gated,
      Pick-total entrant_token p,
      total-append {0} item_token s.pool.buf
          (record { task = task; token = token; enq = now } ∷ []),
    )
    Step-Inv {s} (worker_step now h) v = worker-Inv now s s.pool.buf refl v
    Step-Inv {s} (drop_step it rest p) v =
        ground
          (arith, Pick-total item_token p, gate_done-Counts ops it.token false s.pool.gate v.gated)
    Step-Inv (begin_step it rest p) v = ground (arith, Pick-total item_token p)
    Step-Inv {s} (end_step it outcome rest p) v = ground (
      arith,
      Pick-total item_token p,
      gate_done-Counts ops it.token (success_of outcome) s.pool.gate v.gated,
    )
    Step-Inv (leave_step h) v = ground arith
    Step-Inv close_step v = ground arith
    Step-Inv {s} (toggle_step on) v =
        ground (arith, set_gate_enabled-Counts ops on s.pool.gate v.gated)

    init-Inv :
        (cfg : CodelConfig (Counted G)) (g : G) (usage : ℕ → ℤ)
        → cfg.gate ≡ some (record { gate = g; issued = 0; called = 0 })
        → Inv (start {D = D} (new_codel cfg usage))
    unfolding new_codel
    init-Inv cfg g usage e = ground arith

    Reach-Inv :
        {cfg : CodelConfig (Counted G)} {s : System (Counted G) D} (g : G)
        → cfg.gate ≡ some (record { gate = g; issued = 0; called = 0 })
        → Reach fl (counted ops) cfg s
        → Inv s
    Reach-Inv {cfg} g e (init usage) = init-Inv cfg g usage e
    Reach-Inv g e (next r st) = Step-Inv st (Reach-Inv g e r)

    -- The pool keeps the contract of its gate: with any explicit gate, in every reachable state, the
    -- gate has handed out exactly as many callbacks as have been called and are still in the hands of
    -- submitters, queued items and workers.
    pub callbacks_balanced :
        {cfg : CodelConfig (Counted G)} {s : System (Counted G) D} (g : G)
        → cfg.gate ≡ some (record { gate = g; issued = 0; called = 0 })
        → Reach fl (counted ops) cfg s
        → issued s.pool.gate ≡ called s.pool.gate + outstanding s
    callbacks_balanced g e r = (Reach-Inv g e r).balanced
