-- ===== src/Quarkus/Tests.antt =====
-- The detector and the priorities on small inputs.
use load_shedding.Prelude.{inl, List, ℕ, ◌≡◌, refl, true, [], ◌∷◌, arith, ◌&&◌, if◌then◌else◌}
use load_shedding.Prelude.Int.{pos, ◌+ℤ◌, ◌-ℤ◌, ◌*ℤ◌}
use load_shedding.Prelude.Word.{wrap}
use load_shedding.Prelude.Float.Fixed.{digits_below, fixed, fixed-IsOrdered}
use load_shedding.Http.{Script, header, panicked, shed_response}
use load_shedding.Quarkus.Handler.{handle}
use load_shedding.Quarkus.Handler.Requests.{handle_restores_requests}
use load_shedding.Quarkus.Config.{default_config}
use load_shedding.Quarkus.Priority.{
  refresh, threshold_at, exceeds, cohort_baseline, priority_of, cohort_of, normalize_cohort, score,
  RequestPrioritizer, RequestClassifier, PriorityLoadShedding, new_priority_load_shedding,
  shed_load, PriorityOption, with_prioritizers, with_classifiers,
}
use load_shedding.Quarkus.Priority.Order.{less_important_shed}
use load_shedding.Quarkus.Detector.{
  OverloadDetector, new_overload_detector, is_overloaded, request_begin, update, adjust, react,
  log10_plus1, queue_size, clamp_limit, jitter_of,
}
use load_shedding.Quarkus.Detector.Bounds.{System}
use load_shedding.Quarkus.Shedder.{Shedder, new_shedder}

-- A request is its own priority, and its own cohort.
abbrev by_number : RequestPrioritizer ℕ
by_number = record { applies_to = λ _. true; priority = λ n. pos n }

abbrev cohorts : RequestClassifier ℕ
cohorts = record { applies_to = λ _. true; cohort = λ n. pos n }

abbrev options : List (PriorityOption fixed ℕ)
options = with_prioritizers fixed (by_number ∷ []) ∷ with_classifiers fixed (cohorts ∷ []) ∷ []

abbrev shedding : PriorityLoadShedding fixed ℕ
shedding = new_priority_load_shedding fixed (default_config fixed) options

-- At a load of 0.99 an important request is shed, and half a second later a background one, although
-- the load has fallen.
less_important_shed_example :
    (shed_load fixed (pos 5500) (pos 100) 3 (shed_load fixed (pos 5000) (pos 990) 1 shedding).0).1
    ≡ true
unfolding new_priority_load_shedding shed_load refresh threshold_at exceeds score cohort_baseline
    normalize_cohort priority_of cohort_of wrap ◌+ℤ◌ ◌-ℤ◌ ◌*ℤ◌
less_important_shed_example =
    less_important_shed fixed shedding (pos 5000) (pos 5500) (pos 990) (pos 100) 1 3 1 3
      fixed-IsOrdered refl refl (omega arith) (omega arith, omega arith) (omega arith, omega arith)
      (inl (omega arith)) refl refl

abbrev d0 : OverloadDetector fixed
d0 = new_overload_detector fixed (default_config fixed) (pos 500)

abbrev s0 : System fixed
s0 = record { detector = d0; running = 0; leaving = [] }

abbrev s1 : System fixed
s1 = record s0 { detector = request_begin fixed d0; running = 1 }

-- A detector that has seen 200 microseconds, with 60 requests in flight and a limit of 100.
abbrev loaded : OverloadDetector fixed
loaded = record d0 { current_requests = pos 60; lowest_request_time = pos 200 }

limit_moves : (update fixed (pos 500) (pos 210) (pos 60) loaded).current_limit ≡ pos 103
unfolding new_overload_detector jitter_of update react adjust log10_plus1 queue_size clamp_limit
    wrap ◌+ℤ◌ ◌-ℤ◌ ◌*ℤ◌ digits_below
limit_moves = refl

abbrev shedder : Shedder fixed ℕ
shedder = new_shedder fixed (default_config fixed) options (pos 500)

abbrev full : Shedder fixed ℕ
full = record shedder { detector = record d0 { current_requests = pos 100 } }

abbrev script : Script
script = record { calls = header 500 ∷ []; ending = panicked }

handle_restores_requests_example :
    let r = handle fixed (pos 5000) (pos 900) (pos 500) (pos 10) (pos 900_010) script 3 shedder in
    (r.0.detector.current_requests ≡ shedder.detector.current_requests)
    × (r.1.response ≡ (
        if is_overloaded fixed shedder.detector
          && (shed_load fixed (pos 5000) (pos 900) 3 shedder.priority).1
        then shed_response
        else script.calls))
unfolding new_shedder new_overload_detector
handle_restores_requests_example =
    handle_restores_requests fixed (pos 5000) (pos 900) (pos 500) (pos 10) (pos 900_010) script 3
      shedder (omega arith, omega arith)
