-- ===== src/Queue/Handler/Response.antt =====
-- queue/pool.go and queue/codel.go: what the client of the middleware is sent, and what the gate is told.
use load_shedding.Prelude.{
  ◌≡◌, Bool, true, false, not, Option, none, some, arith, ltb, if◌then◌else◌, ◌&&◌,
}
use load_shedding.Http.{Script}
use load_shedding.Http.Writer.{apply-code, first_status, sent_status, final_status}
use load_shedding.Queue.Task.{SubmitError, success_of, run_safe}
use load_shedding.Queue.Handler.{run_handler, finish_handler, handler_success}

abbrev pub is_rejected : Option SubmitError → Bool
is_rejected none = false
is_rejected (some _) = true

-- The task of the middleware never panics into its worker, whatever the handler does. A request that the
-- pool refused or dropped is answered with status 503, and its handler's panic is not raised. Any other
-- is answered with the first status that its handler set, or with 200 where that one is informational or
-- there is none, and the handler's panic goes on; and then the gate is told of a success exactly if the
-- status that the client is sent is below 500 and the handler did not panic.
pub finish_handler-run_handler :
    (script : Script) (error : Option SubmitError)
    → let (outcome, served) = run_handler script in
      let answer = finish_handler error served in
      (run_safe outcome ≡ false)
      × (sent_status answer.response
          ≡ (if is_rejected error then 503 else final_status (first_status script.calls)))
      × (answer.panics ≡ (if is_rejected error then false else served.panics))
      × (success_of outcome ≡ ltb (sent_status served.response) 500 && not served.panics)
unfolding run_handler finish_handler handler_success run_safe success_of
finish_handler-run_handler script error = ground (arith, apply-code script.calls)
