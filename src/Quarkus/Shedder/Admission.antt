-- ===== src/Quarkus/Shedder/Admission.antt =====
-- quarkus/shedder.go: who is admitted, and that each admission is given back.
use load_shedding.Prelude.{◌≡◌, ◌↔◌, true, false, arith, if◌then◌else◌}
use load_shedding.Prelude.Int.{ℤ}
use load_shedding.Prelude.Word.{IsInt64, decr-incr}
use load_shedding.Prelude.Time.{Time, sub}
use load_shedding.Prelude.Float.{Float64}
use load_shedding.Quarkus.Priority.{shed_load}
use load_shedding.Quarkus.Detector.{
  is_overloaded, request_begin, request_leave, request_end, microseconds,
}
use load_shedding.Quarkus.Detector.Bounds.{update-requests}
use load_shedding.Quarkus.Shedder.{Shedder, admit, done}

module _ (fl : Float64) {R : Type 0} where
  -- A request is rejected exactly when the detector is overloaded and the priority component sheds it. The
  -- detector counts it exactly when it is admitted. The priority component is asked, and changes,
  -- exactly while the detector is overloaded.
  pub admit_iff :
      (now : ℤ) (load : fl.F) (request : R) (s : Shedder fl R)
      → (((admit fl now load request s).1 ≡ false) ↔ (
          (is_overloaded fl s.detector ≡ true)
          × ((shed_load fl now load request s.priority).1 ≡ true)))
        × ((admit fl now load request s).0.detector
            ≡ (if (admit fl now load request s).1 then request_begin fl s.detector else s.detector))
        × ((admit fl now load request s).0.priority ≡ (
            if is_overloaded fl s.detector
            then (shed_load fl now load request s.priority).0
            else s.priority))
  unfolding admit
  admit_iff now load request s = ground arith

  -- An admitted request that is done gives back its place: the count of requests is as before, also at
  -- the ends of the int64 range, and whatever time it took.
  pub admit-done :
      (now : ℤ) (load draw : fl.F) (request : R) (start stop : Time) (s : Shedder fl R)
      → IsInt64 s.detector.current_requests
      → (admit fl now load request s).1 ≡ true
      → (done fl draw start stop (admit fl now load request s).0).detector.current_requests
        ≡ s.detector.current_requests
  unfolding admit done request_end request_begin request_leave
  admit-done now load draw request start stop s h e =
      let begun = request_begin fl s.detector in
      let left = request_leave fl begun in
      ground (
        arith,
        decr-incr s.detector.current_requests h,
        update-requests fl draw (microseconds (sub stop start)) left.1 left.0,
      )
