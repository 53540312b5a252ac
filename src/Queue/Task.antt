-- ===== src/Queue/Task.antt =====
-- queue/: what both pools share about tasks: their outcomes, the errors of a submission, `runSafe`.
use load_shedding.Prelude.{ℕ, ◌+◌, Bool, true, false, Option, none, some, if◌then◌else◌, ◌==◌}

-- The errors that `Submit` and `SubmitWait` return; a nil error is `none`.
pub data SubmitError : Type 0 where
  nil_task queue_full queue_timeout overloaded stopped task_dropped : SubmitError

-- How a task, a `func() bool`, ends: it returns its success, or panics.
pub data Outcome : Type 0 where
  returned : Bool → Outcome
  panicked : Outcome

-- What the closure around a task hands to the gate's `done`: the task's success, and false if it
-- panicked. The closure panics again then.
unfoldable pub success_of : Outcome → Bool
success_of (returned success) = success
success_of panicked = false

-- `runSafe` gives back control in either case; a panic is logged.
unfoldable pub run_safe : Outcome → Bool
run_safe (returned _) = false
run_safe panicked = true

-- What `submitWaitOutcome` shares with its task: how often the channel `done` was closed, of which a
-- second time panics, and `wasDropped`.
pub record Waiting : Type 0 where
  pub closes : ℕ
  pub was_dropped : Bool

abbrev pub new_waiting : Waiting
new_waiting = record { closes = 0; was_dropped = false }

unfoldable pub finish_wait : Waiting → Waiting
finish_wait w = record w { closes = w.closes + 1 }

unfoldable pub drop_wait : Waiting → Waiting
unfolding finish_wait
drop_wait w = finish_wait (record w { was_dropped = true })

-- What the caller of `submitWaitOutcome` returns once its task is accepted; `none` while it waits for
-- the channel.
unfoldable pub wait_answer : Waiting → Option (Option SubmitError)
wait_answer w =
    if w.closes == 0 then none else some (if w.was_dropped then some task_dropped else none)

-- The waiters by their tasks, one of them changed.
unfoldable pub change : (Waiting → Waiting) → ℕ → (ℕ → Waiting) → ℕ → Waiting
change f task waiters a = if a == task then f (waiters a) else waiters a
