-- ===== src/Limits/Windowed/Capped.antt =====
-- concurrencylimits/windowed.go: windows in front of an algorithm keep its bound.
use load_shedding.Prelude.{ℕ, ◌≡◌, Bool, Option, none, some, arith, Bool-cases, inl, inr}
use mathlib.Core.Path.{subst, sym}
use load_shedding.Prelude.Int.{ℤ, ltb_ℤ}
use load_shedding.Prelude.Time.{Time, Duration}
use load_shedding.Limits.Limit.{Limit}
use load_shedding.Limits.Limit.Capped.{Capped}
use load_shedding.Limits.Windowed.{
  SampleWindow, WindowedLimit, add, feed, flush, windowed_on_sample, windowed,
}

flush-delegate :
    {L : Type 0} (now : Time) (w : WindowedLimit L) → (flush now w).0.delegate ≡ w.delegate
unfolding flush
flush-delegate now w = ground arith

module _ {L : Type 0} (algorithm : Limit L) (bound : ℤ) (cap : Capped algorithm bound) where
  feed-keeps :
      (w : WindowedLimit L) (s : Option SampleWindow)
      → cap.IsKept w.delegate
      → cap.IsKept (feed algorithm (w, s)).delegate
  unfolding feed
  feed-keeps w none h = h
  feed-keeps w (some s) h = cap.keeps _ _ _ w.delegate h

  pub on_sample-keeps :
      (now : Time) (rtt : Duration) (inflight : ℤ) (dropped : Bool) (w : WindowedLimit L)
      → cap.IsKept w.delegate
      → cap.IsKept (windowed_on_sample algorithm now rtt inflight dropped w).delegate
  unfolding windowed_on_sample
  on_sample-keeps now rtt inflight dropped w h =
      let w' = record w { window = add rtt inflight dropped w.window } in
      let flushed = flush now w' in
      elim (Bool-cases (ltb_ℤ rtt w.min_rtt_threshold)) [
        | inl e ↦ rw e h
        | inr e ↦
            rw e (feed-keeps flushed.0 flushed.1 (subst cap.IsKept (sym (flush-delegate now w')) h))
      ]

  -- The windowed algorithm, with the invariant of its delegate.
  abbrev pub windowed_capped : (clock : ℕ → Time) → Capped (windowed algorithm clock) bound
  windowed_capped clock = record {
    IsKept = λ (n, w). cap.IsKept w.delegate;
    limit_le = λ (n, w) h. cap.limit_le w.delegate h;
    keeps = λ rtt inflight dropped (n, w) h. on_sample-keeps (clock n) rtt inflight dropped w h;
  }
