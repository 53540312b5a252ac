-- ===== src/Queue/Codel/Wait.antt =====
-- queue/codel.go: `SubmitWait`. Its caller waits for the task, or for the callback that CoDel calls in
-- its place.
use load_shedding.Prelude.{ℕ, ◌+◌, ◌≤◌, ◌≡◌, refl, none, some, arith, ltb, if◌then◌else◌, ◌==◌}
use load_shedding.Prelude.Bag.{count}
use load_shedding.Prelude.Int.{ℤ}
use load_shedding.Prelude.Float.{Float64}
use load_shedding.Queue.Gate.{Gate}
use load_shedding.Queue.Task.{
  task_dropped, Waiting, new_waiting, finish_wait, drop_wait, wait_answer, change,
}
use load_shedding.Queue.Codel.{
  CodelConfig, CodelPool, Decision, waits, exits, drops, serves, new_codel, worker_lock,
}
use load_shedding.Queue.Codel.System.{
  System, start, arrived, entered, worked, Step, arrive_step, enter_step, worker_step, drop_step,
  begin_step, end_step, leave_step, close_step, toggle_step, Reach, init, next,
}
use load_shedding.Queue.Codel.Fate.{held, is_task, accepted_task_fate}

module _ {G D : Type 0} (fl : Float64) (ops : Gate G D) where
  -- What an action does to the waiters: the end of a task closes its channel, and so does the callback of
  -- a dropped one, which says so first.
  unfoldable pub tell : {s t : System G D} → Step fl ops s t → (ℕ → Waiting) → ℕ → Waiting
  unfolding change
  tell (drop_step it rest p) waiters = change drop_wait it.task waiters
  tell (end_step it outcome rest p) waiters = change finish_wait it.task waiters
  tell _ waiters = waiters

  -- A pool all of whose tasks have a waiter.
  pub data ReachWaiting (cfg : CodelConfig G) : System G D → (ℕ → Waiting) → Type 0 where
    init_waiting :
        (usage : ℕ → ℤ) → ReachWaiting cfg (start (new_codel cfg usage)) (λ _. new_waiting)
    next_waiting :
        {s t : System G D} {waiters : ℕ → Waiting}
        → ReachWaiting cfg s waiters
        → (st : Step fl ops s t) → ReachWaiting cfg t (tell st waiters)

  forget :
      {cfg : CodelConfig G} {s : System G D} {waiters : ℕ → Waiting}
      → ReachWaiting cfg s waiters
      → Reach fl ops cfg s
  forget (init_waiting usage) = init usage
  forget (next_waiting r st) = next (forget r) st

  record Told (a : ℕ) (s : System G D) (w : Waiting) : Type 0 where
    closed : w.closes ≡ count a s.ran + count a s.shed
    dropped : w.was_dropped ≡ ltb 0 (count a s.shed)

  worked-Told :
      (a : ℕ) (s : System G D) (r : CodelPool G D × Decision D) (w : Waiting)
      → Told a s w
      → Told a (worked r s) w
  unfolding worked
  worked-Told a s (p, waits) w v = ground arith
  worked-Told a s (p, exits) w v = ground arith
  worked-Told a s (p, drops it) w v = ground arith
  worked-Told a s (p, serves it) w v = ground arith

  Step-Told :
      (a : ℕ) {s t : System G D} (st : Step fl ops s t) (waiters : ℕ → Waiting)
      → Told a s (waiters a)
      → Told a t (tell st waiters a)
  unfolding tell change finish_wait drop_wait arrived entered
  Step-Told a (arrive_step task) waiters v = ground arith
  Step-Told a (enter_step now task token rest p) waiters v = ground arith
  Step-Told a {s} (worker_step now h) waiters v = worked-Told a s (worker_lock fl now s.pool) _ v
  Step-Told a (drop_step it rest p) waiters v = ground arith
  Step-Told a (begin_step it rest p) waiters v = ground arith
  Step-Told a (end_step it outcome rest p) waiters v = ground arith
  Step-Told a (leave_step h) waiters v = ground arith
  Step-Told a close_step waiters v = ground arith
  Step-Told a (toggle_step on) waiters v = ground arith

  Reach-Told :
      (a : ℕ) {cfg : CodelConfig G} {s : System G D} {waiters : ℕ → Waiting}
      → ReachWaiting cfg s waiters
      → Told a s (waiters a)
  Reach-Told a (init_waiting usage) = record { closed = refl; dropped = refl }
  Reach-Told a (next_waiting {waiters = waiters} r st) = Step-Told a st waiters (Reach-Told a r)

  -- `SubmitWait` returns once, and the truth: in every reachable state, the channel of a task that was
  -- accepted once has been closed at most once; its caller waits exactly as long as the task is queued
  -- or with a worker; and then it returns nil if the task has run, and ErrDropped if CoDel dropped it.
  pub submit_wait_answer :
      (a : ℕ) {cfg : CodelConfig G} {s : System G D} {waiters : ℕ → Waiting}
      → ReachWaiting cfg s waiters
      → count a s.admitted ≡ 1
      → ((waiters a).closes ≤ 1)
        × (wait_answer (waiters a) ≡ (
            if held (is_task a) s == 1
            then none
            else some (if count a s.ran == 1 then none else some task_dropped)))
        × (held (is_task a) s + count a s.ran + count a s.shed ≡ 1)
  unfolding wait_answer
  submit_wait_answer a r once =
      ground (arith, Reach-Told a r, accepted_task_fate fl ops a (forget r))
