-- ===== src/Limits/Handler.antt =====
-- concurrencylimits/handler.go: the middleware of a limiter.
pub mod Slots
use load_shedding.Prelude.{
  ℕ, Bool, true, false, Option, none, some, List, [], ◌∷◌, if◌then◌else◌, ltb, leb,
}
use load_shedding.Prelude.Time.{Time}
use load_shedding.Http.{
  Call, CodeWriter, new_code_writer, apply, Ending, returned, panicked, Script, shed_response,
  status_internal_server_error,
}
use load_shedding.Limits.Limit.{Limiter, Report, on_success, on_dropped}

-- The deferred function: the report on a listener.
unfoldable pub report_of : Ending → ℕ → Report
report_of panicked code = on_dropped
report_of returned code = if leb 500 code then on_dropped else on_success

-- What became of a request: what its client was sent, and whether the panic went on.
pub record Served : Type 0 where
  pub response : List Call
  pub panics : Bool

abbrev pub goes_on : Ending → Bool
goes_on panicked = true
goes_on returned = false

module _ {S T : Type 0} (limiter : Limiter S T) where
  serve : Time → Script → S × Option T → S × Served
  unfolding report_of
  serve now script (s, none) = (s, record { response = shed_response; panics = false })
  serve now script (s, some listener) =
      let w = apply script.calls (new_code_writer []) in
      (
        (limiter.report now listener (report_of script.ending w.code) s).0,
        record { response = w.underlying; panics = goes_on script.ending },
      )

  -- A request from `start`, whose handler ends at `now`, with no other request in between.
  unfoldable pub handle : Time → Time → Script → S → S × Served
  unfolding serve
  handle start now script s = serve now script (limiter.acquire start s)
