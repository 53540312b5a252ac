-- ===== src/Queue/Pool/Wait.antt =====
-- queue/pool.go: `SubmitWait`, whose caller waits for the task.
use load_shedding.Prelude.{ℕ, ◌+◌, ◌≤◌, ◌≡◌, refl, false, none, some, arith, if◌then◌else◌, ◌==◌}
use load_shedding.Prelude.Bag.{count}
use load_shedding.Prelude.Int.{ℤ}
use load_shedding.Queue.Gate.{Gate}
use load_shedding.Queue.Task.{Waiting, new_waiting, finish_wait, wait_answer, change}
use load_shedding.Queue.Pool.{Config, Pool, new}
use load_shedding.Queue.Pool.System.{
  System, start, arrived, offered, Step, arrive_step, acquire_step, shed_step, send_step,
  count_step, receive_step, exit_step, begin_step, end_step, leave_step, release_step, close_step,
  toggle_step, Reach, init, next,
}
use load_shedding.Queue.Pool.Fate.{held, is_task, sent_task_fate}

module _ {G D : Type 0} (ops : Gate G D) where
  -- The end of a task closes its channel.
  unfoldable pub tell : {s t : System G D} → Step ops s t → (ℕ → Waiting) → ℕ → Waiting
  unfolding change
  tell (end_step job outcome rest p) waiters = change finish_wait job.task waiters
  tell _ waiters = waiters

  -- A pool all of whose tasks have a waiter.
  pub data ReachWaiting (cfg : Config G) : System G D → (ℕ → Waiting) → Type 0 where
    init_waiting :
        (usage : ℕ → ℤ) {p : Pool G D}
        → new cfg usage ≡ some p
        → ReachWaiting cfg (start p) (λ _. new_waiting)
    next_waiting :
        {s t : System G D} {waiters : ℕ → Waiting}
        → ReachWaiting cfg s waiters
        → (st : Step ops s t) → ReachWaiting cfg t (tell st waiters)

  forget :
      {cfg : Config G} {s : System G D} {waiters : ℕ → Waiting}
      → ReachWaiting cfg s waiters
      → Reach ops cfg s
  forget (init_waiting usage e) = init usage e
  forget (next_waiting r st) = next (forget r) st

  record Told (a : ℕ) (s : System G D) (w : Waiting) : Type 0 where
    closed : w.closes ≡ count a s.ran
    kept : w.was_dropped ≡ false

  Step-Told :
      (a : ℕ) {s t : System G D} (st : Step ops s t) (waiters : ℕ → Waiting)
      → Told a s (waiters a)
      → Told a t (tell st waiters a)
  unfolding tell change finish_wait arrived offered
  Step-Told a (arrive_step task) waiters v = ground arith
  Step-Told a (acquire_step job rest p e) waiters v = ground arith
  Step-Told a (shed_step job rest p h) waiters v = ground arith
  Step-Told a (send_step job rest p h) waiters v = ground arith
  Step-Told a (count_step h) waiters v = ground arith
  Step-Told a (receive_step job rest h e) waiters v = ground arith
  Step-Told a (exit_step h e c) waiters v = ground arith
  Step-Told a (begin_step job rest p) waiters v = ground arith
  Step-Told a (end_step job outcome rest p) waiters v = ground arith
  Step-Told a (leave_step h) waiters v = ground arith
  Step-Told a (release_step h) waiters v = ground arith
  Step-Told a close_step waiters v = ground arith
  Step-Told a (toggle_step on) waiters v = ground arith

  Reach-Told :
      (a : ℕ) {cfg : Config G} {s : System G D} {waiters : ℕ → Waiting}
      → ReachWaiting cfg s waiters
      → Told a s (waiters a)
  Reach-Told a (init_waiting usage e) = record { closed = refl; kept = refl }
  Reach-Told a (next_waiting {waiters = waiters} r st) = Step-Told a st waiters (Reach-Told a r)

  -- `SubmitWait` of a task that was sent once: in every reachable state its channel has been closed at
  -- most once; its caller waits exactly as long as the task is queued or with a worker, and then returns
  -- nil.
  pub pool_wait_answer :
      (a : ℕ) {cfg : Config G} {s : System G D} {waiters : ℕ → Waiting}
      → ReachWaiting cfg s waiters
      → count a s.admitted ≡ 1
      → ((waiters a).closes ≤ 1)
        × (wait_answer (waiters a) ≡ (if held (is_task a) s == 1 then none else some none))
        × (held (is_task a) s + count a s.ran ≡ 1)
  unfolding wait_answer
  pool_wait_answer a r once = ground (arith, Reach-Told a r, sent_task_fate ops a (forget r))
