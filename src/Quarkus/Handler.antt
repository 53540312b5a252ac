-- ===== src/Quarkus/Handler.antt =====
-- quarkus/shedder.go: the middleware.
pub mod Requests
use load_shedding.Prelude.{Bool, true, false}
use load_shedding.Prelude.Int.{ℤ}
use load_shedding.Prelude.Time.{Time}
use load_shedding.Prelude.Float.{Float64}
use load_shedding.Http.{Script, shed_response}
use load_shedding.Limits.Handler.{Served, goes_on}
use load_shedding.Quarkus.Shedder.{Shedder, admit, done}

module _ (fl : Float64) {R : Type 0} where
  -- `done` is deferred, so that it is called also where the handler panics.
  serve : fl.F → Time → Time → Script → Shedder fl R × Bool → Shedder fl R × Served
  serve draw start stop script (s, false) = (s, record { response = shed_response; panics = false })
  serve draw start stop script (s, true) = (
    done fl draw start stop s,
    record { response = script.calls; panics = goes_on script.ending },
  )

  -- A request that is admitted at `start` and ends at `stop`, with no other request in between.
  unfoldable pub handle :
      ℤ → fl.F → fl.F → Time → Time → Script → R → Shedder fl R → Shedder fl R × Served
  unfolding serve
  handle now load draw start stop script request s =
      serve draw start stop script (admit fl now load request s)
