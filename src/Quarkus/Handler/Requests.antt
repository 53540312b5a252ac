-- ===== src/Quarkus/Handler/Requests.antt =====
-- quarkus/shedder.go: the middleware gives back each place, and answers what it sheds.
use load_shedding.Prelude.{◌≡◌, refl, Bool, true, false, arith, if◌then◌else◌, ◌&&◌}
use load_shedding.Prelude.Int.{ℤ}
use load_shedding.Prelude.Word.{IsInt64}
use load_shedding.Prelude.Time.{Time}
use load_shedding.Prelude.Float.{Float64}
use load_shedding.Http.{Script, shed_response}
use load_shedding.Quarkus.Detector.{is_overloaded}
use load_shedding.Quarkus.Priority.{shed_load}
use load_shedding.Quarkus.Shedder.{Shedder, admit}
use load_shedding.Quarkus.Shedder.Admission.{admit_iff, admit-done}
use load_shedding.Quarkus.Handler.{serve, handle}

module _ (fl : Float64) {R : Type 0} where
  serve_restores :
      (now : ℤ) (load draw : fl.F) (start stop : Time) (script : Script) (request : R)
      (s : Shedder fl R) (x : Shedder fl R × Bool)
      → admit fl now load request s ≡ x
      → IsInt64 s.detector.current_requests
      → ((serve fl draw start stop script x).0.detector.current_requests
          ≡ s.detector.current_requests)
        × ((serve fl draw start stop script x).1.response
            ≡ (if x.1 then script.calls else shed_response))
  unfolding serve
  serve_restores now load draw start stop script request s (m, false) e h =
      (ground (arith, (admit_iff fl now load request s).1), refl)
  serve_restores now load draw start stop script request s (m, true) e h =
      (ground (arith, admit-done fl now load draw request start stop s h), refl)

  -- The middleware leaves the count of requests as it found it, also where the handler panics; a request
  -- is answered by its handler, except that it is shed, with status 503, exactly when the detector is
  -- overloaded and the priority component sheds it.
  pub handle_restores_requests :
      (now : ℤ) (load draw : fl.F) (start stop : Time) (script : Script) (request : R)
      (s : Shedder fl R)
      → IsInt64 s.detector.current_requests
      → let r = handle fl now load draw start stop script request s in
        (r.0.detector.current_requests ≡ s.detector.current_requests)
        × (r.1.response ≡ (
            if is_overloaded fl s.detector && (shed_load fl now load request s.priority).1
            then shed_response
            else script.calls))
  unfolding handle
  handle_restores_requests now load draw start stop script request s h = ground (
    arith,
    serve_restores now load draw start stop script request s (admit fl now load request s) refl h,
    (admit_iff fl now load request s).0,
  )
