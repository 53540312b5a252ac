-- ===== src/Quarkus/Shedder.antt =====
-- quarkus/shedder.go: the overload detector and the priority shedding together.
pub mod Admission
use load_shedding.Prelude.{◌≡◌, refl, List, Bool, true, false, not, arith, if◌then◌else◌, ◌&&◌}
use load_shedding.Prelude.Int.{ℤ, pos}
use load_shedding.Prelude.Word.{IsInt64, incr, decr-incr}
use load_shedding.Prelude.Time.{Time, Duration, sub}
use load_shedding.Prelude.Float.{Float64}
use load_shedding.Quarkus.Config.{Config}
use load_shedding.Quarkus.Priority.{
  PriorityLoadShedding, PriorityOption, new_priority_load_shedding, shed_load,
}
use load_shedding.Quarkus.Detector.{
  OverloadDetector, new_overload_detector, is_overloaded, request_begin, request_leave, request_end,
  update,
}

module _ (fl : Float64) where
  pub record Shedder (R : Type 0) : Type 0 where
    pub detector : OverloadDetector fl
    pub priority : PriorityLoadShedding fl R

  module _ {R : Type 0} where
    unfoldable pub new_shedder : Config fl → List (PriorityOption fl R) → fl.F → Shedder R
    new_shedder cfg opts draw = record {
      detector = new_overload_detector fl cfg draw;
      priority = new_priority_load_shedding fl cfg opts;
    }

    -- `now` and `load` are what the priority component would read; the clock is read again for the start
    -- time, which the caller keeps with the callback.
    unfoldable pub admit : ℤ → fl.F → R → Shedder R → Shedder R × Bool
    admit now load request s =
        if is_overloaded fl s.detector
        then (let (p, shed) = shed_load fl now load request s.priority in
            let t = record s { priority = p } in
            if shed
            then (t, false)
            else (record t { detector = request_begin fl t.detector }, true))
        else (record s { detector = request_begin fl s.detector }, true)

    -- The callback `done`.
    unfoldable pub done : fl.F → Time → Time → Shedder R → Shedder R
    done draw start now s = record s { detector = request_end fl draw (sub now start) s.detector }
