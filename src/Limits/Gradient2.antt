-- ===== src/Limits/Gradient2.antt =====
-- concurrencylimits/gradient2.go: the limit that compares the latest time with a long average.
pub mod Bounds
pub mod Capped
use load_shedding.Prelude.{List, Bool, true, false, not, if◌then◌else◌}
use load_shedding.Prelude.Int.{ℤ, pos, ltb_ℤ}
use load_shedding.Prelude.Time.{Duration}
use load_shedding.Prelude.Float.{Float64}
use load_shedding.Limits.Limit.{Limit, with_options}
use load_shedding.Limits.ExpAvg.{ExpAvg, new_exp_avg, avg_add, avg_update}
use load_shedding.Limits.Held.{held_within}

module _ (fl : Float64) where
  open fl use {F, of_int, to_int, ratio, add, minus, mul, div, lt, maximum, minimum}

  pub record Gradient2Limit : Type 0 where
    pub estimated_limit : F
    pub max_limit : ℤ
    pub min_limit : ℤ
    pub smoothing : F
    pub tolerance : F
    pub queue_size_func : ℤ → F
    pub long_rtt : ExpAvg fl

  abbrev pub Gradient2Option : Type 0
  Gradient2Option = Gradient2Limit → Gradient2Limit

  abbrev pub gradient2_initial_limit : ℤ → Gradient2Option
  gradient2_initial_limit n g = record g { estimated_limit = of_int n }

  abbrev pub gradient2_max_concurrency : ℤ → Gradient2Option
  gradient2_max_concurrency n g = record g { max_limit = n }

  abbrev pub gradient2_min_limit : ℤ → Gradient2Option
  gradient2_min_limit n g = record g { min_limit = n }

  abbrev pub gradient2_rtt_tolerance : F → Gradient2Option
  gradient2_rtt_tolerance t g = record g { tolerance = t }

  abbrev pub gradient2_long_window : ℤ → Gradient2Option
  gradient2_long_window n g = record g { long_rtt = new_exp_avg fl n (pos 10) }

  abbrev pub gradient2_smoothing : F → Gradient2Option
  gradient2_smoothing s g = record g { smoothing = s }

  abbrev pub gradient2_queue_size : ℤ → Gradient2Option
  gradient2_queue_size n g = record g { queue_size_func = λ _. of_int n }

  abbrev pub gradient2_defaults : Gradient2Limit
  gradient2_defaults = record {
    estimated_limit = ratio (pos 20) (pos 1);
    max_limit = pos 200;
    min_limit = pos 20;
    smoothing = ratio (pos 1) (pos 5);
    tolerance = ratio (pos 3) (pos 2);
    queue_size_func = λ _. ratio (pos 4) (pos 1);
    long_rtt = new_exp_avg fl (pos 600) (pos 10);
  }

  abbrev pub new_gradient2_limit : List Gradient2Option → Gradient2Limit
  new_gradient2_limit opts = with_options opts gradient2_defaults

  unfoldable pub gradient2_limit : Gradient2Limit → ℤ
  gradient2_limit g = to_int g.estimated_limit

  -- The long average after a sample, let fall faster where it is above twice the sample.
  unfoldable pub long_after : F → ExpAvg fl → ExpAvg fl
  unfolding avg_add
  long_after short e =
      let e' = avg_add fl short e in
      if lt (ratio (pos 2) (pos 1)) (div e'.value short)
      then avg_update fl (λ current. mul current (ratio (pos 19) (pos 20))) e'
      else e'

  -- The new limit before it is held within its bounds.
  unfoldable pub smoothed : Gradient2Limit → F → F → F → F
  smoothed g queue_size long short =
      let one = ratio (pos 1) (pos 1) in
      let gradient =
        maximum (ratio (pos 1) (pos 2)) (minimum one (div (mul g.tolerance long) short)) in
      add (mul g.estimated_limit (minus one g.smoothing))
        (mul (add (mul g.estimated_limit gradient) queue_size) g.smoothing)

  unfoldable pub gradient2_on_sample : Duration → ℤ → Bool → Gradient2Limit → Gradient2Limit
  unfolding long_after smoothed held_within
  gradient2_on_sample rtt inflight did_drop g =
      if not (ltb_ℤ (pos 0) rtt)
      then g
      else (let queue_size = g.queue_size_func (to_int g.estimated_limit) in
          let short = of_int rtt in
          let avg = long_after short g.long_rtt in
          let g' = record g { long_rtt = avg } in
          if lt (of_int inflight) (div g.estimated_limit (ratio (pos 2) (pos 1)))
          then g'
          else record g' {
            estimated_limit =
                held_within fl g.min_limit g.max_limit (smoothed g queue_size avg.value short);
          })

  -- Gradient2Limit as a `Limit`.
  abbrev pub gradient2 : Limit Gradient2Limit
  gradient2 = record { on_sample = gradient2_on_sample; limit = gradient2_limit }
