-- ===== src/Quarkus/Detector.antt =====
-- quarkus/detector.go: an adaptive concurrency limit after TCP Vegas.
pub mod Bounds
use load_shedding.Prelude.{Bool, true, false, not, if◌then◌else◌, ◌&&◌}
use load_shedding.Prelude.Int.{ℤ, pos, negsuc, ltb_ℤ}
use load_shedding.Prelude.Word.{add64, sub64, mul64, incr, decr, quot, max_int64}
use load_shedding.Prelude.Time.{Duration}
use load_shedding.Prelude.Float.{Float64}
use load_shedding.Quarkus.Config.{Config}

-- `rtt.Microseconds()`: the quotient, towards zero.
abbrev pub microseconds : Duration → ℤ
microseconds d = quot d (pos 1000)

module _ (fl : Float64) where
  open fl use {F, of_int, to_int, ratio, add, minus, mul, div, le, ceil, log10}

  abbrev one : F
  one = ratio (pos 1) (pos 1)

  -- The table of the first 1000 values, and what the code computes beyond it.
  unfoldable pub log10_plus1 : ℤ → ℤ
  log10_plus1 limit =
      if not (ltb_ℤ limit (pos 0)) && ltb_ℤ limit (pos 1000)
      then (if ltb_ℤ limit (pos 1) then pos 1 else add64 (pos 1) (to_int (log10 (of_int limit))))
      else add64 (pos 1) (to_int (log10 (of_int limit)))

  pub record OverloadDetector : Type 0 where
    pub max_limit : ℤ
    pub alpha_factor : ℤ
    pub beta_factor : ℤ
    pub probe_factor : F
    pub current_requests : ℤ
    pub current_limit : ℤ
    pub lowest_request_time : ℤ
    pub probe_count : F
    pub probe_jitter : F

  -- `draw` is what `rand.Float64` returns.
  unfoldable pub jitter_of : F → F
  jitter_of draw = add (ratio (pos 1) (pos 2)) (mul draw (ratio (pos 1) (pos 2)))

  unfoldable pub new_overload_detector : Config fl → F → OverloadDetector
  unfolding jitter_of
  new_overload_detector cfg draw = record {
    max_limit = cfg.max_limit;
    alpha_factor = cfg.alpha_factor;
    beta_factor = cfg.beta_factor;
    probe_factor = cfg.probe_factor;
    current_requests = pos 0;
    current_limit = cfg.initial_limit;
    lowest_request_time = max_int64;
    probe_count = ratio (pos 0) (pos 1);
    probe_jitter = jitter_of draw;
  }

  unfoldable pub is_overloaded : OverloadDetector → Bool
  is_overloaded d = not (ltb_ℤ d.current_requests d.current_limit)

  unfoldable pub request_begin : OverloadDetector → OverloadDetector
  request_begin d = record d { current_requests = incr d.current_requests }

  -- The two clamps at the end of `update`.
  unfoldable pub clamp_limit : ℤ → ℤ → ℤ
  clamp_limit max_limit limit =
      let raised = if ltb_ℤ limit (pos 1) then pos 1 else limit in
      if ltb_ℤ max_limit raised then max_limit else raised

  unfoldable pub queue_size : ℤ → ℤ → ℤ → ℤ
  queue_size limit lowest request_time =
      to_int (ceil (mul (of_int limit) (minus one (div (of_int lowest) (of_int request_time)))))

  -- The switch of `update`, on the queue size.
  unfoldable pub adjust : OverloadDetector → ℤ → OverloadDetector
  unfolding clamp_limit
  adjust d queue =
      let limit = d.current_limit in
      let step = log10_plus1 limit in
      let alpha = mul64 d.alpha_factor step in
      let beta = mul64 d.beta_factor step in
      if not (ltb_ℤ step queue)
      then record d { current_limit = clamp_limit d.max_limit (add64 limit beta) }
      else if ltb_ℤ queue alpha
      then record d { current_limit = clamp_limit d.max_limit (add64 limit step) }
      else if ltb_ℤ beta queue
      then record d { current_limit = clamp_limit d.max_limit (sub64 limit step) }
      else d

  -- `update` for a positive request time, after the probe count went up.
  unfoldable pub react : F → ℤ → ℤ → OverloadDetector → OverloadDetector
  unfolding adjust jitter_of queue_size
  react draw request_time requests d =
      if le (mul (mul d.probe_factor d.probe_jitter) (of_int d.current_limit)) d.probe_count
      then record d {
        probe_jitter = jitter_of draw;
        probe_count = ratio (pos 0) (pos 1);
        lowest_request_time = request_time;
      }
      else if ltb_ℤ request_time d.lowest_request_time
      then record d { lowest_request_time = request_time }
      else if ltb_ℤ (mul64 (pos 2) requests) d.current_limit
      then d
      else adjust d (queue_size d.current_limit d.lowest_request_time request_time)

  unfoldable pub update : F → ℤ → ℤ → OverloadDetector → OverloadDetector
  unfolding react
  update draw request_time requests d =
      if ltb_ℤ (pos 0) request_time
      then react draw request_time requests (record d { probe_count = add d.probe_count one })
      else d

  -- The atomic part of `RequestEnd`: the new state, and the count before the decrement.
  unfoldable pub request_leave : OverloadDetector → OverloadDetector × ℤ
  request_leave d = (
    record d { current_requests = decr d.current_requests },
    add64 (decr d.current_requests) (pos 1),
  )

  unfoldable pub request_end : F → Duration → OverloadDetector → OverloadDetector
  unfolding request_leave update
  request_end draw rtt d =
      let (d', current) = request_leave d in update draw (microseconds rtt) current d'
