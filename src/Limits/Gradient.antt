-- ===== src/Limits/Gradient.antt =====
-- concurrencylimits/gradient.go: the limit that compares the latest time with the least one.
pub mod Clamps
pub mod Bounds
use load_shedding.Limits.Limit.{with_options}
use load_shedding.Prelude.{List, Bool, true, false, not, if◌then◌else◌, ◌||◌}
use load_shedding.Prelude.Int.{ℤ, pos, negsuc, ltb_ℤ}
use load_shedding.Prelude.Word.{decr, add64}
use load_shedding.Prelude.Time.{Duration, eqb_ℤ}
use load_shedding.Prelude.Float.{Float64}

abbrev pub gradient_disabled_probe : ℤ
gradient_disabled_probe = negsuc 0

module _ (fl : Float64) where
  open fl use {F, of_int, to_int, ratio, add, minus, mul, div, lt, maximum, minimum, sqrt}

  pub record GradientLimit : Type 0 where
    pub estimated_limit : F
    pub max_limit : ℤ
    pub min_limit : ℤ
    pub smoothing : F
    pub rtt_tolerance : F
    pub backoff_ratio : F
    pub probe_interval : ℤ
    pub queue_size_func : ℤ → F
    pub rtt_no_load : Duration
    pub reset_rtt_counter : ℤ

  -- `math.Max(4, math.Sqrt(float64(limit)))`.
  abbrev pub default_queue_size : ℤ → F
  default_queue_size limit = maximum (of_int (pos 4)) (sqrt (of_int limit))

  -- `draw` is what `rand.IntN` returns.
  abbrev pub next_probe_countdown : ℤ → ℤ → ℤ
  next_probe_countdown interval draw =
      if eqb_ℤ interval gradient_disabled_probe
      then gradient_disabled_probe
      else add64 interval draw

  abbrev pub GradientOption : Type 0
  GradientOption = GradientLimit → GradientLimit

  abbrev pub gradient_initial_limit : ℤ → GradientOption
  gradient_initial_limit n g = record g { estimated_limit = of_int n }

  abbrev pub gradient_max_concurrency : ℤ → GradientOption
  gradient_max_concurrency n g = record g { max_limit = n }

  abbrev pub gradient_min_limit : ℤ → GradientOption
  gradient_min_limit n g = record g { min_limit = n }

  abbrev pub gradient_rtt_tolerance : F → GradientOption
  gradient_rtt_tolerance t g = record g { rtt_tolerance = t }

  abbrev pub gradient_defaults : GradientLimit
  gradient_defaults = record {
    estimated_limit = of_int (pos 50);
    max_limit = pos 1000;
    min_limit = pos 1;
    smoothing = ratio (pos 1) (pos 5);
    rtt_tolerance = ratio (pos 2) (pos 1);
    backoff_ratio = ratio (pos 9) (pos 10);
    probe_interval = pos 1000;
    queue_size_func = default_queue_size;
    rtt_no_load = pos 0;
    reset_rtt_counter = pos 0;
  }

  abbrev pub new_gradient_limit : List GradientOption → ℤ → GradientLimit
  new_gradient_limit opts draw =
      let g = with_options opts gradient_defaults in
      record g { reset_rtt_counter = next_probe_countdown g.probe_interval draw }

  unfoldable pub gradient_limit : GradientLimit → ℤ
  gradient_limit g = to_int g.estimated_limit

  -- A new limit below the old one is smoothed, and kept above the minimum.
  unfoldable pub softened : F → GradientLimit → F
  softened new_limit g =
      if lt new_limit g.estimated_limit
      then maximum (of_int g.min_limit) (
          add (mul g.estimated_limit (minus (ratio (pos 1) (pos 1)) g.smoothing))
            (mul g.smoothing new_limit))
      else new_limit

  unfoldable pub store_limit : F → F → GradientLimit → GradientLimit
  unfolding softened
  store_limit queue_size new_limit g = record g {
    estimated_limit = maximum queue_size (minimum (of_int g.max_limit) (softened new_limit g));
  }

  -- The running minimum.
  abbrev pub no_load_after : Duration → Duration → Duration
  no_load_after rtt least = if eqb_ℤ least (pos 0) || ltb_ℤ rtt least then rtt else least

  -- `OnSample` past the probe.
  unfoldable pub react_to_rtt : F → Duration → ℤ → Bool → GradientLimit → GradientLimit
  unfolding store_limit
  react_to_rtt queue_size rtt inflight did_drop g =
      let g' = record g { rtt_no_load = no_load_after rtt g.rtt_no_load } in
      let gradient = maximum (ratio (pos 1) (pos 2)) (
        minimum (ratio (pos 1) (pos 1))
          (div (mul g.rtt_tolerance (of_int g'.rtt_no_load)) (of_int rtt))) in
      if did_drop
      then store_limit queue_size (mul g.estimated_limit g.backoff_ratio) g'
      else if lt (of_int inflight) (div g.estimated_limit (ratio (pos 2) (pos 1)))
      then g'
      else store_limit queue_size (add (mul g.estimated_limit gradient) queue_size) g'

  -- The probe: a new countdown, no baseline, and the limit at the queue size.
  unfoldable pub probe : F → ℤ → GradientLimit → GradientLimit
  probe queue_size draw g = record g {
    reset_rtt_counter = next_probe_countdown g.probe_interval draw;
    estimated_limit = maximum (of_int g.min_limit) queue_size;
    rtt_no_load = pos 0;
  }

  unfoldable pub gradient_on_sample : ℤ → Duration → ℤ → Bool → GradientLimit → GradientLimit
  unfolding react_to_rtt probe
  gradient_on_sample draw rtt inflight did_drop g =
      let queue_size = g.queue_size_func (to_int g.estimated_limit) in
      if not (ltb_ℤ (pos 0) rtt)
      then g
      else if eqb_ℤ g.probe_interval gradient_disabled_probe
      then react_to_rtt queue_size rtt inflight did_drop g
      else (let g' = record g { reset_rtt_counter = decr g.reset_rtt_counter } in
          if ltb_ℤ (pos 0) g'.reset_rtt_counter
          then react_to_rtt queue_size rtt inflight did_drop g'
          else probe queue_size draw g')
