-- ===== src/Queue/Handler.antt =====
-- queue/pool.go and queue/codel.go: the middleware of the two pools, which is the same text twice.
pub mod Response
use load_shedding.Prelude.{ℕ, Bool, true, false, Option, none, some, [], ltb, if◌then◌else◌}
use load_shedding.Http.{
  Script, Ending, returned, panicked, apply, new_code_writer, shed_response,
  status_internal_server_error,
}
use load_shedding.Limits.Handler.{Served, goes_on}
use load_shedding.Queue.Task.{SubmitError, Outcome}

-- What the closure returns: a panic is kept for later, and counts as a failure.
unfoldable pub handler_success : Ending → ℕ → Bool
handler_success panicked code = false
handler_success returned code = ltb code status_internal_server_error

-- The task that the middleware submits: how it ends for the pool, and what the client is sent.
unfoldable pub run_handler : Script → Outcome × Served
unfolding handler_success
run_handler script =
    let w = apply script.calls (new_code_writer []) in
    (
      Outcome.returned (handler_success script.ending w.code),
      record { response = w.underlying; panics = goes_on script.ending },
    )

-- What the middleware does once `submitWaitOutcome` has returned.
unfoldable pub finish_handler : Option SubmitError → Served → Served
finish_handler none served = served
finish_handler (some _) served = record { response = shed_response; panics = false }
