-- ===== src/Limits/Gradient2/Bounds.antt =====
-- concurrencylimits/gradient2.go: the limit stays between its bounds.
use load_shedding.Prelude.{◌≡◌, refl, ◌⊎◌, inl, inr, Bool, false, List, [], ◌∷◌, arith}
use load_shedding.Prelude.Int.{ℤ, ◌≤ℤ◌}
use load_shedding.Prelude.Time.{Duration}
use load_shedding.Prelude.Float.{Float64}
use load_shedding.Prelude.Float.Laws.{is_number, IsOrdered, IsClamping, IsExact}
use load_shedding.Limits.Held.{IsBetween, IsKept, held_within-IsKept}
use load_shedding.Limits.Gradient2.{
  Gradient2Limit, gradient2_limit, gradient2_on_sample, smoothed, long_after,
}

-- A call of `OnSample`.
pub record Sample : Type 0 where
  pub rtt : Duration
  pub inflight : ℤ
  pub did_drop : Bool

module _ (fl : Float64) where
  -- The limit after these samples, the latest first.
  abbrev pub after_samples : List Sample → Gradient2Limit fl → Gradient2Limit fl
  after_samples [] g = g
  after_samples (s ∷ older) g =
      gradient2_on_sample fl s.rtt s.inflight s.did_drop (after_samples older g)

  pub record Inv (low high : ℤ) (g : Gradient2Limit fl) : Type 0 where
    pub low_kept : g.min_limit ≡ low
    pub high_kept : g.max_limit ≡ high
    pub kept : IsKept fl low high g.estimated_limit

  module _ (ordered : IsOrdered fl) (laws : IsClamping fl) where
    pub on_sample-Inv :
        (low high : ℤ) (s : Sample) (g : Gradient2Limit fl)
        → low ≤ℤ high
        → Inv low high g
        → Inv low high (gradient2_on_sample fl s.rtt s.inflight s.did_drop g)
    unfolding gradient2_on_sample
    on_sample-Inv low high s g h v =
        let short = fl.of_int s.rtt in
        let long = (long_after fl short g.long_rtt).value in
        let target = smoothed fl g (g.queue_size_func (fl.to_int g.estimated_limit)) long short in
        ground (arith, held_within-IsKept fl ordered laws low high target h)

    after_samples-Inv :
        (low high : ℤ) (samples : List Sample) (g : Gradient2Limit fl)
        → low ≤ℤ high
        → Inv low high g
        → Inv low high (after_samples samples g)
    after_samples-Inv low high [] g h v = v
    after_samples-Inv low high (s ∷ older) g h v =
        on_sample-Inv low high s (after_samples older g) h (after_samples-Inv low high older g h v)

    -- Whatever samples a Gradient2Limit gets, and whatever its other parameters are, the limit that it
    -- answers stays between its minimum and its maximum, unless the arithmetic has made the estimate a
    -- NaN. The estimate starts in that range, whose ends are at least 0 and at most 2^53.
    pub gradient2_limit-between :
        (samples : List Sample) (g : Gradient2Limit fl)
        → IsExact g.min_limit
        → IsExact g.max_limit
        → g.min_limit ≤ℤ g.max_limit
        → IsBetween fl g.min_limit g.max_limit g.estimated_limit
        → (is_number fl (after_samples samples g).estimated_limit ≡ false)
          ⊎ ((g.min_limit ≤ℤ gradient2_limit fl (after_samples samples g))
              × (gradient2_limit fl (after_samples samples g) ≤ℤ g.max_limit))
    unfolding gradient2_limit
    gradient2_limit-between samples g low high h k =
        elim (after_samples-Inv g.min_limit g.max_limit samples g h
          (record { low_kept = refl; high_kept = refl; kept = inr k })).kept [
            | inl e ↦ inl e
            | inr (over, under) ↦ inr (
                laws.to_int_between g.min_limit g.max_limit
                  (after_samples samples g).estimated_limit low high over under)
          ]
