-- ===== src/Queue/Pool/Fate.antt =====
-- queue/pool.go: what becomes of a task that the pool has accepted.
use load_shedding.Prelude.{ℕ, ◌+◌, ◌≡◌, [], ◌∷◌, arith}
use load_shedding.Prelude.Bag.{Pick-total, total, total-append, count, one_if_eq}
use load_shedding.Queue.Gate.{Gate}
use load_shedding.Queue.Pool.{
  Config, Job, new, try_acquire, release, count_accepted, run_begin, run_end, close, arrive, shed,
  send, task_end,
}
use load_shedding.Queue.Pool.System.{
  System, arrived, offered, Step, arrive_step, acquire_step, shed_step, send_step, count_step,
  receive_step, exit_step, begin_step, end_step, leave_step, release_step, close_step, toggle_step,
  Reach, init, next,
}

abbrev pub is_task : {D : Type 0} → ℕ → Job D → ℕ
is_task a job = one_if_eq a job.task

module _ {G D : Type 0} where
  -- The jobs that wait in the channel or that a worker holds, each with a weight.
  abbrev pub held : (Job D → ℕ) → System G D → ℕ
  held w s = total w s.pool.tasks + total w s.taken + total w s.executing

  module _ (ops : Gate G D) (a : ℕ) where
    Step-whole :
        {s t : System G D}
        → Step ops s t
        → count a s.admitted ≡ held (is_task a) s + count a s.ran
        → count a t.admitted ≡ held (is_task a) t + count a t.ran
    unfolding arrive arrived try_acquire shed send offered count_accepted release task_end run_begin
        run_end close
    Step-whole (arrive_step task) v = ground arith
    Step-whole (acquire_step job rest p e) v = ground arith
    Step-whole (shed_step job rest p h) v = ground arith
    Step-whole {s} (send_step job rest p h) v =
        ground (arith, total-append (is_task a) s.pool.tasks (job ∷ []))
    Step-whole (count_step h) v = ground arith
    Step-whole (receive_step job rest h e) v = ground arith
    Step-whole (exit_step h e c) v = ground arith
    Step-whole (begin_step job rest p) v = ground (arith, Pick-total (is_task a) p)
    Step-whole (end_step job outcome rest p) v = ground (arith, Pick-total (is_task a) p)
    Step-whole (leave_step h) v = ground arith
    Step-whole (release_step h) v = ground arith
    Step-whole close_step v = ground arith
    Step-whole (toggle_step on) v = ground arith

    -- No accepted task is lost or run twice: in every state that a new pool reaches, a task is found
    -- among the queued jobs, those that a worker holds and those that have run, together exactly as
    -- often as it was sent.
    pub sent_task_fate :
        {cfg : Config G} {s : System G D}
        → Reach ops cfg s
        → count a s.admitted ≡ held (is_task a) s + count a s.ran
    unfolding new
    sent_task_fate (init usage e) = ground arith
    sent_task_fate (next r st) = Step-whole st (sent_task_fate r)
