-- ===== src/Limits/Vegas.antt =====
-- concurrencylimits/vegas.go: the limit after TCP Vegas.
pub mod Bounds
use load_shedding.Prelude.{List, Bool, true, false, not, if◌then◌else◌, ◌||◌}
use load_shedding.Prelude.Int.{ℤ, pos, ltb_ℤ}
use load_shedding.Prelude.Word.{incr, mul64}
use load_shedding.Prelude.Time.{Duration, eqb_ℤ}
use load_shedding.Prelude.Float.{Float64}
use load_shedding.Limits.Limit.{with_options}
use load_shedding.Limits.ExpAvg.{log10_int}

module _ (fl : Float64) where
  open fl use {F, of_int, to_int, ratio, add, minus, mul, div, lt, le, maximum, minimum, ceil}

  pub record VegasLimit : Type 0 where
    pub estimated_limit : F
    pub max_limit : ℤ
    pub smoothing : F
    pub probe_multiplier : ℤ
    pub rtt_no_load : Duration
    pub probe_count : ℤ
    pub probe_jitter : F
    pub alpha : ℤ → ℤ
    pub beta : ℤ → ℤ
    pub threshold : ℤ → ℤ
    pub increase : F → F
    pub decrease : F → F

  -- `draw` is what `rand.Float64` returns.
  abbrev pub jitter_of : F → F
  jitter_of draw = add (ratio (pos 1) (pos 2)) (mul draw (ratio (pos 1) (pos 2)))

  abbrev pub VegasOption : Type 0
  VegasOption = VegasLimit → VegasLimit

  abbrev pub vegas_initial_limit : ℤ → VegasOption
  vegas_initial_limit n v = record v { estimated_limit = of_int n }

  abbrev pub vegas_max_concurrency : ℤ → VegasOption
  vegas_max_concurrency n v = record v { max_limit = n }

  abbrev pub vegas_smoothing : F → VegasOption
  vegas_smoothing s v = record v { smoothing = s }

  abbrev pub vegas_probe_multiplier : ℤ → VegasOption
  vegas_probe_multiplier m v = record v { probe_multiplier = m }

  abbrev pub vegas_defaults : VegasLimit
  vegas_defaults = record {
    estimated_limit = ratio (pos 20) (pos 1);
    max_limit = pos 1000;
    smoothing = ratio (pos 1) (pos 1);
    probe_multiplier = pos 30;
    rtt_no_load = pos 0;
    probe_count = pos 0;
    probe_jitter = of_int (pos 0);
    alpha = λ limit. mul64 (pos 3) (log10_int fl limit);
    beta = λ limit. mul64 (pos 6) (log10_int fl limit);
    threshold = λ limit. log10_int fl limit;
    increase = λ limit. add limit (of_int (log10_int fl (to_int limit)));
    decrease = λ limit. minus limit (of_int (log10_int fl (to_int limit)));
  }

  unfoldable pub new_vegas_limit : List VegasOption → F → VegasLimit
  new_vegas_limit opts draw =
      let v = with_options opts vegas_defaults in record v { probe_jitter = jitter_of draw }

  unfoldable pub vegas_limit : VegasLimit → ℤ
  vegas_limit v = to_int v.estimated_limit

  -- The end of `updateEstimatedLimit`, at a new limit.
  unfoldable pub settle_limit : F → VegasLimit → VegasLimit
  settle_limit new_limit v =
      let held = maximum (of_int (pos 1)) (minimum (of_int v.max_limit) new_limit) in
      record v {
        estimated_limit =
            add (mul (minus (ratio (pos 1) (pos 1)) v.smoothing) v.estimated_limit)
              (mul v.smoothing held);
      }

  -- The inner switch of `updateEstimatedLimit`.
  unfoldable pub react_to_queue : ℤ → VegasLimit → VegasLimit
  unfolding settle_limit
  react_to_queue queue_size v =
      let limit = v.estimated_limit in
      if not (ltb_ℤ (v.threshold (to_int limit)) queue_size)
      then settle_limit (add limit (of_int (v.beta (to_int limit)))) v
      else if ltb_ℤ queue_size (v.alpha (to_int limit))
      then settle_limit (v.increase limit) v
      else if ltb_ℤ (v.beta (to_int limit)) queue_size
      then settle_limit (v.decrease limit) v
      else v

  unfoldable pub update_estimated_limit : Duration → ℤ → Bool → VegasLimit → VegasLimit
  unfolding react_to_queue settle_limit
  update_estimated_limit rtt inflight did_drop v =
      let limit = v.estimated_limit in
      if did_drop
      then settle_limit (v.decrease limit) v
      else if lt (mul (of_int inflight) (ratio (pos 2) (pos 1))) limit
      then v
      else react_to_queue
          (to_int (
            ceil (
              mul limit (minus (ratio (pos 1) (pos 1)) (div (of_int v.rtt_no_load) (of_int rtt))))))
          v

  unfoldable pub should_probe : VegasLimit → Bool
  should_probe v =
      le (mul (mul v.probe_jitter (of_int v.probe_multiplier)) v.estimated_limit)
        (of_int v.probe_count)

  -- `OnSample`, after the probe count went up.
  unfoldable pub probe_or_update : F → Duration → ℤ → Bool → VegasLimit → VegasLimit
  unfolding should_probe update_estimated_limit
  probe_or_update draw rtt inflight did_drop v =
      if should_probe v
      then record v { probe_jitter = jitter_of draw; probe_count = pos 0; rtt_no_load = rtt }
      else if eqb_ℤ v.rtt_no_load (pos 0) || ltb_ℤ rtt v.rtt_no_load
      then record v { rtt_no_load = rtt }
      else update_estimated_limit rtt inflight did_drop v

  unfoldable pub vegas_on_sample : F → Duration → ℤ → Bool → VegasLimit → VegasLimit
  unfolding probe_or_update
  vegas_on_sample draw rtt inflight did_drop v =
      if not (ltb_ℤ (pos 0) rtt)
      then v
      else probe_or_update draw rtt inflight did_drop
          (record v { probe_count = incr v.probe_count })
