-- ===== src/Queue/Pool/Tokens.antt =====
-- queue/pool.go: the contract of `Gate`: the callback of each admission is called exactly once.
use load_shedding.Prelude.{ℕ, ◌+◌, ◌≡◌, true, false, some, [], ◌∷◌, arith}
use load_shedding.Prelude.Bag.{Pick-total, total, total-append}
use load_shedding.Prelude.Int.{ℤ}
use load_shedding.Queue.Gate.{Gate}
use load_shedding.Queue.Gate.Counted.{
  Counted, counted, issued, called, is_open, is_explicit, gate_allow-Counts, gate_done-Counts,
  set_gate_enabled-Counts,
}
use load_shedding.Queue.Task.{success_of}
use load_shedding.Queue.Pool.{
  Config, Job, Pool, new, try_acquire, release, count_accepted, run_begin, run_end, close, arrive,
  shed, send, task_end,
}
use load_shedding.Queue.Pool.System.{
  System, start, arrived, offered, Step, arrive_step, acquire_step, shed_step, send_step,
  count_step, receive_step, exit_step, begin_step, end_step, leave_step, release_step, close_step,
  toggle_step, Reach, init, next,
}
use load_shedding.Queue.Pool.Fate.{held}

abbrev pub job_token : {D : Type 0} → Job D → ℕ
job_token job = is_open job.token

-- The callbacks in the hands of submitters, of the queue and of workers.
abbrev pub outstanding : {G D : Type 0} → System G D → ℕ
outstanding s = total job_token s.entering + total job_token s.holding + held job_token s

module _ {G D : Type 0} where
  record Inv (s : System (Counted G) D) : Type 0 where
    gated : is_explicit s.pool.gate ≡ true
    balanced : issued s.pool.gate ≡ called s.pool.gate + outstanding s

  module _ (ops : Gate G D) where
    Step-Inv : {s t : System (Counted G) D} → Step (counted ops) s t → Inv s → Inv t
    unfolding arrive arrived try_acquire shed send offered count_accepted release task_end run_begin
        run_end close
    Step-Inv {s} (arrive_step task) v = ground (arith, gate_allow-Counts ops s.pool.gate v.gated)
    Step-Inv (acquire_step job rest p e) v = ground (arith, Pick-total job_token p)
    Step-Inv {s} (shed_step job rest p h) v =
        ground
          (arith, Pick-total job_token p, gate_done-Counts ops job.token false s.pool.gate v.gated)
    Step-Inv {s} (send_step job rest p h) v = ground (
      arith,
      Pick-total job_token p,
      gate_done-Counts ops job.token false s.pool.gate v.gated,
      total-append job_token s.pool.tasks (job ∷ []),
    )
    Step-Inv (count_step h) v = ground arith
    Step-Inv (receive_step job rest h e) v = ground arith
    Step-Inv (exit_step h e c) v = ground arith
    Step-Inv (begin_step job rest p) v = ground (arith, Pick-total job_token p)
    Step-Inv {s} (end_step job outcome rest p) v = ground (
      arith,
      Pick-total job_token p,
      gate_done-Counts ops job.token (success_of outcome) s.pool.gate v.gated,
    )
    Step-Inv (leave_step h) v = ground arith
    Step-Inv (release_step h) v = ground arith
    Step-Inv close_step v = ground arith
    Step-Inv {s} (toggle_step on) v =
        ground (arith, set_gate_enabled-Counts ops on s.pool.gate v.gated)

    init-Inv :
        (cfg : Config (Counted G)) (g : G) (usage : ℕ → ℤ) {p : Pool (Counted G) D}
        → cfg.gate ≡ some (record { gate = g; issued = 0; called = 0 })
        → new cfg usage ≡ some p
        → Inv (start p)
    unfolding new
    init-Inv cfg g usage e h = ground arith

    Reach-Inv :
        {cfg : Config (Counted G)} {s : System (Counted G) D} (g : G)
        → cfg.gate ≡ some (record { gate = g; issued = 0; called = 0 })
        → Reach (counted ops) cfg s
        → Inv s
    Reach-Inv {cfg} g e (init usage h) = init-Inv cfg g usage e h
    Reach-Inv g e (next r st) = Step-Inv st (Reach-Inv g e r)

    -- The pool keeps the contract of its gate: with any explicit gate, in every reachable state, the
    -- gate has handed out exactly as many callbacks as have been called and are still in the hands of
    -- submitters, queued jobs and workers.
    pub pool_callbacks_balanced :
        {cfg : Config (Counted G)} {s : System (Counted G) D} (g : G)
        → cfg.gate ≡ some (record { gate = g; issued = 0; called = 0 })
        → Reach (counted ops) cfg s
        → issued s.pool.gate ≡ called s.pool.gate + outstanding s
    pool_callbacks_balanced g e r = (Reach-Inv g e r).balanced
