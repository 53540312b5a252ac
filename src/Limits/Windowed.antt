-- ===== src/Limits/Windowed.antt =====
-- concurrencylimits/windowed.go: a limit algorithm behind windows of samples.
pub mod Window
pub mod Timing
pub mod Spacing
pub mod Capped
use load_shedding.Prelude.{
  ℕ, suc, List, Bool, true, false, not, Option, none, some, if◌then◌else◌, ◌&&◌, ◌||◌,
}
use load_shedding.Prelude.Int.{ℤ, pos, ltb_ℤ}
use load_shedding.Prelude.Word.{incr, add64, mul64, quot}
use load_shedding.Prelude.Time.{Time, Duration, zero_time, is_zero, after, eqb_ℤ}
use load_shedding.Limits.Limit.{Limit, with_options}

pub record SampleWindow : Type 0 where
  pub min_rtt : Duration
  pub sum_rtt : Duration
  pub count : ℤ
  pub max_in_flight : ℤ
  pub did_drop : Bool

-- `&sampleWindow{}`.
abbrev pub empty_window : SampleWindow
empty_window = record {
  min_rtt = pos 0;
  sum_rtt = pos 0;
  count = pos 0;
  max_in_flight = pos 0;
  did_drop = false;
}

unfoldable pub add : Duration → ℤ → Bool → SampleWindow → SampleWindow
add rtt inflight dropped s = record {
  min_rtt = if eqb_ℤ s.count (pos 0) || ltb_ℤ rtt s.min_rtt then rtt else s.min_rtt;
  sum_rtt = add64 s.sum_rtt rtt;
  count = incr s.count;
  max_in_flight = if ltb_ℤ s.max_in_flight inflight then inflight else s.max_in_flight;
  did_drop = s.did_drop || dropped;
}

abbrev pub candidate_rtt : SampleWindow → Duration
candidate_rtt s = s.min_rtt

unfoldable pub tracked_rtt : SampleWindow → Duration
tracked_rtt s = if eqb_ℤ s.count (pos 0) then pos 0 else quot s.sum_rtt s.count

unfoldable pub clamp_duration : Duration → Duration → Duration → Duration
clamp_duration d lo hi = if ltb_ℤ d lo then lo else if ltb_ℤ hi d then hi else d

pub record WindowedLimit (L : Type 0) : Type 0 where
  pub delegate : L
  pub min_window_time : Duration
  pub max_window_time : Duration
  pub window_size : ℤ
  pub min_rtt_threshold : Duration
  pub window : SampleWindow
  pub next_update : Time

abbrev pub WindowedOption : Type 0 → Type 0
WindowedOption L = WindowedLimit L → WindowedLimit L

module _ {L : Type 0} where
  abbrev pub windowed_min_window_time : Duration → WindowedOption L
  windowed_min_window_time d w = record w { min_window_time = d }

  abbrev pub windowed_max_window_time : Duration → WindowedOption L
  windowed_max_window_time d w = record w { max_window_time = d }

  abbrev pub windowed_window_size : ℤ → WindowedOption L
  windowed_window_size n w = record w { window_size = n }

  abbrev pub windowed_min_rtt_threshold : Duration → WindowedOption L
  windowed_min_rtt_threshold d w = record w { min_rtt_threshold = d }

  abbrev pub windowed_defaults : L → WindowedLimit L
  windowed_defaults delegate = record {
    delegate = delegate;
    min_window_time = pos 1_000_000_000;
    max_window_time = pos 1_000_000_000;
    window_size = pos 10;
    min_rtt_threshold = pos 100_000;
    window = empty_window;
    next_update = zero_time;
  }

  unfoldable pub new_windowed_limit : L → List (WindowedOption L) → WindowedLimit L
  new_windowed_limit delegate opts = with_options opts (windowed_defaults delegate)

  -- The critical section of `OnSample`, after the sample joined the window: the window to feed on, if it
  -- is full enough.
  unfoldable pub flush : Time → WindowedLimit L → WindowedLimit L × Option SampleWindow
  flush now w =
      if is_zero w.next_update
      then (record w { next_update = after now w.min_window_time }, none)
      else if not (ltb_ℤ w.next_update now)
      then (w, none)
      else (
        record w {
          window = empty_window;
          next_update = after now (
              clamp_duration (mul64 (candidate_rtt w.window) (pos 2)) w.min_window_time
                w.max_window_time);
        },
        if ltb_ℤ w.window.count w.window_size then none else some w.window,
      )

  module _ (algorithm : Limit L) where
    open algorithm use {on_sample}

    feed : WindowedLimit L × Option SampleWindow → WindowedLimit L
    feed (w, none) = w
    feed (w, some s) = record w {
      delegate = on_sample (tracked_rtt s) s.max_in_flight s.did_drop w.delegate;
    }

    unfoldable pub windowed_on_sample :
        Time → Duration → ℤ → Bool → WindowedLimit L → WindowedLimit L
    unfolding feed flush add
    windowed_on_sample now rtt inflight dropped w =
        if ltb_ℤ rtt w.min_rtt_threshold
        then w
        else feed (flush now (record w { window = add rtt inflight dropped w.window }))

    -- WindowedLimit as a `Limit`; the number before it counts the calls, and `clock` is what each reads
    -- of the time.
    abbrev pub windowed : (ℕ → Time) → Limit (ℕ × WindowedLimit L)
    windowed clock = record {
      on_sample = λ rtt inflight dropped (n, w).
          (suc n, windowed_on_sample (clock n) rtt inflight dropped w);
      limit = λ (n, w). algorithm.limit w.delegate;
    }
