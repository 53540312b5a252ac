-- ===== src/Quarkus/Detector/Bounds.antt =====
-- quarkus/detector.go: the limit stays in its range, and the count of requests is exact.
use load_shedding.Prelude.{ℕ, List, [], ◌∷◌, ◌-◌, ◌≢◌, ◌≡◌, false, arith, ◌+◌, ◌<◌, ◌^◌}
use load_shedding.Prelude.Int.{ℤ, pos, ◌≤ℤ◌, ltb_ℤ}
use load_shedding.Prelude.Bag.{Pick}
use load_shedding.Prelude.Word.{mul64}
use load_shedding.Prelude.Time.{Duration}
use load_shedding.Prelude.Float.{Float64}
use load_shedding.Quarkus.Config.{Config}
use load_shedding.Quarkus.Detector.{
  queue_size, microseconds, new_overload_detector, OverloadDetector, adjust, react, update,
  request_leave, request_begin,
}

module _ (fl : Float64) where
  abbrev pub InRange : ℤ → ℤ → Type 0
  InRange max_limit limit = (pos 1 ≤ℤ limit) × (limit ≤ℤ max_limit)

  adjust-requests :
      (d : OverloadDetector fl) (queue : ℤ)
      → (adjust fl d queue).current_requests ≡ d.current_requests
  unfolding adjust
  adjust-requests d queue = ground arith

  -- An update leaves the count of requests alone.
  pub update-requests :
      (draw : fl.F) (request_time requests : ℤ) (d : OverloadDetector fl)
      → (update fl draw request_time requests d).current_requests ≡ d.current_requests
  unfolding update react
  update-requests draw request_time requests d =
      let d' = record d { probe_count = fl.add d.probe_count (fl.ratio (pos 1) (pos 1)) } in
      ground (
        arith,
        adjust-requests d' (queue_size fl d'.current_limit d'.lowest_request_time request_time),
      )

  -- The limit moves only for a reason: if an update changes it, then the request took at least one
  -- microsecond, and no less than the lowest time on record, and twice the requests in flight (as an
  -- int64) reach the limit.
  update_changes :
      (draw : fl.F) (request_time requests : ℤ) (d : OverloadDetector fl)
      → (update fl draw request_time requests d).current_limit ≢ d.current_limit
      → (pos 1 ≤ℤ request_time)
        × (d.lowest_request_time ≤ℤ request_time)
        × (ltb_ℤ (mul64 (pos 2) requests) d.current_limit ≡ false)
  unfolding update react
  update_changes draw request_time requests d h = ground arith

  -- The detector under concurrent requests: those in flight, and those past the decrement of
  -- `RequestEnd` with the count that they read.
  pub record System : Type 0 where
    pub detector : OverloadDetector fl
    pub running : ℕ
    pub leaving : List ℤ

  -- One atomic action. Fewer than 2^63 requests are in flight.
  pub data Step (s : System) : System → Type 0 where
    begin_step :
        s.running + 1 < 2 ^ 63
        → Step s (record s { detector = request_begin fl s.detector; running = s.running + 1 })
    leave_step :
        0 < s.running
        → Step s (record s {
          detector = (request_leave fl s.detector).0;
          running = s.running - 1;
          leaving = (request_leave fl s.detector).1 ∷ s.leaving;
        })
    update_step :
        (draw : fl.F) (rtt : Duration) (current : ℤ) {rest : List ℤ}
        → Pick current s.leaving rest
        → Step s (record s {
          detector = update fl draw (microseconds rtt) current s.detector;
          leaving = rest;
        })

  pub data Reach (cfg : Config fl) : System → Type 0 where
    init :
        (draw : fl.F)
        → Reach cfg
            (record { detector = new_overload_detector fl cfg draw; running = 0; leaving = [] })
    next : {s t : System} → Reach cfg s → Step s t → Reach cfg t

  record Inv (cfg : Config fl) (s : System) : Type 0 where
    same_max : s.detector.max_limit ≡ cfg.max_limit
    in_range : InRange cfg.max_limit s.detector.current_limit
    few : s.running < 2 ^ 63
    counted : s.detector.current_requests ≡ pos s.running
