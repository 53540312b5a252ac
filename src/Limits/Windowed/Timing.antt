-- ===== src/Limits/Windowed/Timing.antt =====
-- concurrencylimits/windowed.go: what one call does to the windows and to the delegate.
use load_shedding.Prelude.{
  ◌≡◌, refl, true, Bool, not, ◌&&◌, Option, none, some, arith, Bool-cases, inl, inr, if◌then◌else◌,
}
use load_shedding.Prelude.Int.{ℤ, pos, ◌≤ℤ◌, ltb_ℤ, ◌+ℤ◌}
use load_shedding.Prelude.Word.{mul64}
use load_shedding.Prelude.Time.{Time, Duration, after, is_zero}
use load_shedding.Limits.Limit.{Limit}
use load_shedding.Limits.Windowed.{
  SampleWindow, empty_window, WindowedLimit, add, flush, clamp_duration, windowed_on_sample, feed,
  candidate_rtt, tracked_rtt,
}

-- A call of `OnSample` at a reading of the clock.
pub record Call : Type 0 where
  pub now : Time
  pub rtt : Duration
  pub inflight : ℤ
  pub dropped : Bool

-- The windows' bounds are these durations, and the next update is the zero time or later.
pub record IsTimed {L : Type 0} (low high : Duration) (w : WindowedLimit L) : Type 0 where
  pub low_kept : w.min_window_time ≡ low
  pub high_kept : w.max_window_time ≡ high
  pub started : pos 0 ≤ℤ w.next_update

module _ {L : Type 0} (algorithm : Limit L) where
  abbrev pub after_call : Call → WindowedLimit L → WindowedLimit L
  after_call c w = windowed_on_sample algorithm c.now c.rtt c.inflight c.dropped w

  -- What a call feeds to the delegate.
  abbrev pub fed : Call → WindowedLimit L → Option SampleWindow
  fed c w =
      if ltb_ℤ c.rtt w.min_rtt_threshold
      then none
      else (flush c.now (record w { window = add c.rtt c.inflight c.dropped w.window })).1

  feed-timing :
      (w : WindowedLimit L) (s : Option SampleWindow)
      → ((feed algorithm (w, s)).next_update ≡ w.next_update)
        × ((feed algorithm (w, s)).min_window_time ≡ w.min_window_time)
        × ((feed algorithm (w, s)).max_window_time ≡ w.max_window_time)
  unfolding feed
  feed-timing w none = (refl, refl, refl)
  feed-timing w (some s) = (refl, refl, refl)

  clamp_duration_ge : (d lo hi : Duration) → lo ≤ℤ hi → lo ≤ℤ clamp_duration d lo hi
  unfolding clamp_duration
  clamp_duration_ge d lo hi h = ground arith

  -- The next update moves on, past the window where the window is fed.
  flush-timing :
      (now : Time) (low high : Duration) (w : WindowedLimit L)
      → pos 0 ≤ℤ low
      → low ≤ℤ high
      → ltb_ℤ (pos 0) now ≡ true
      → IsTimed low high w
      → IsTimed low high (flush now w).0
        × (w.next_update ≤ℤ (flush now w).0.next_update)
        × ((s : SampleWindow)
            → (flush now w).1 ≡ some s
            → (ltb_ℤ w.next_update now ≡ true) × (after now low ≤ℤ (flush now w).0.next_update))
  unfolding flush ◌+ℤ◌
  flush-timing now low high w l h t v =
      let d = mul64 (candidate_rtt w.window) (pos 2) in
      ground (arith, clamp_duration_ge d low high h, v, t, l)

  pub call-timing :
      (c : Call) (low high : Duration) (w : WindowedLimit L)
      → pos 0 ≤ℤ low
      → low ≤ℤ high
      → ltb_ℤ (pos 0) c.now ≡ true
      → IsTimed low high w
      → IsTimed low high (after_call c w)
        × (w.next_update ≤ℤ (after_call c w).next_update)
        × ((s : SampleWindow)
            → fed c w ≡ some s
            → (ltb_ℤ w.next_update c.now ≡ true)
              × (after c.now low ≤ℤ (after_call c w).next_update))
  unfolding windowed_on_sample
  call-timing c low high w l h t v =
      let w' = record w { window = add c.rtt c.inflight c.dropped w.window } in
      let flushed = flush c.now w' in
      let (same, same_low, same_high) = feed-timing flushed.0 flushed.1 in
      let joined : IsTimed low high w' = record {
        low_kept = v.low_kept;
        high_kept = v.high_kept;
        started = v.started;
      } in
      let (timed, later, spaced) = flush-timing c.now low high w' l h t joined in
      elim (Bool-cases (ltb_ℤ c.rtt w.min_rtt_threshold)) [
        | inl e ↦ rw e (v, omega arith, λ s k. ground (arith, k))
        | inr e ↦ rw e (
          record {
            low_kept = ground (arith, same_low, timed.low_kept);
            high_kept = ground (arith, same_high, timed.high_kept);
            started = ground (arith, same, timed.started);
          },
          ground (arith, same, later),
          λ s k. ground (arith, same, spaced s k),
        )
      ]

  -- What a call leaves in the delegate is what it feeds, and a window that it feeds is full.
  pub call-delegate :
      (c : Call) (w : WindowedLimit L)
      → (fed c w ≡ none → (after_call c w).delegate ≡ w.delegate)
        × ((s : SampleWindow)
            → fed c w ≡ some s
            → ((after_call c w).delegate
                ≡ algorithm.on_sample (tracked_rtt s) s.max_in_flight s.did_drop w.delegate)
              × (w.window_size ≤ℤ s.count))
  unfolding windowed_on_sample flush feed
  call-delegate c w = (λ e. ground (arith, e), λ s e. ground (arith, e))

  pub call-window_size :
      (c : Call) (w : WindowedLimit L) → (after_call c w).window_size ≡ w.window_size
  unfolding windowed_on_sample flush feed
  call-window_size c w = ground arith

  -- Whether a call past the threshold starts a new window: after the end of one that has begun.
  pub starts_window : Call → WindowedLimit L → Bool
  starts_window c w = not (is_zero w.next_update) && ltb_ℤ w.next_update c.now

  -- The window after a call, and the window that it feeds.
  pub call-window :
      (c : Call) (w : WindowedLimit L)
      → ((after_call c w).window ≡ (
          if ltb_ℤ c.rtt w.min_rtt_threshold
          then w.window
          else if starts_window c w
          then empty_window
          else add c.rtt c.inflight c.dropped w.window))
        × ((s : SampleWindow) → fed c w ≡ some s → s ≡ add c.rtt c.inflight c.dropped w.window)
  unfolding windowed_on_sample flush feed starts_window
  call-window c w = (ground arith, λ s e. ground (arith, e))
