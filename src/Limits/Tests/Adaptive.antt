-- ===== src/Limits/Tests/Adaptive.antt =====
-- The adaptive limits on three samples, over thousandths in place of float64.
use load_shedding.Prelude.{◌≡◌, refl, ◌⊎◌, false, List, [], ◌∷◌, arith}
use load_shedding.Prelude.Int.{pos, ◌≤ℤ◌, ◌+ℤ◌, ◌-ℤ◌, ◌*ℤ◌}
use load_shedding.Prelude.Word.{wrap}
use load_shedding.Prelude.Float.Laws.{is_number}
use load_shedding.Prelude.Float.Fixed.{
  fixed, fixed-IsOrdered, fixed-IsClamping, fixed-IsUnital, fixed-IsLattice, digits_below,
  sqrt_below,
}
use load_shedding.Limits.ExpAvg.{avg_add, log10_int}
use load_shedding.Limits.Held.{held_within}
use load_shedding.Limits.Gradient2.{
  Gradient2Limit, new_gradient2_limit, gradient2_limit, gradient2_on_sample, smoothed, long_after,
}
use load_shedding.Limits.Gradient2.Bounds.{gradient2_limit-between, after_samples}
use load_shedding.Limits.Vegas.{
  VegasLimit, new_vegas_limit, vegas_limit, vegas_on_sample, probe_or_update,
  update_estimated_limit, react_to_queue, settle_limit, should_probe,
}
use load_shedding.Limits.Vegas.Bounds.{vegas_limit-between}
use load_shedding.Limits.Gradient.{
  GradientLimit, new_gradient_limit, gradient_initial_limit, gradient_max_concurrency,
  gradient_limit, gradient_on_sample, react_to_rtt, probe, store_limit, softened,
}
use load_shedding.Limits.Gradient.Bounds.{gradient_limit-between, HadNan}
use load_shedding.Limits.Gradient.Bounds as First
use load_shedding.Limits.Gradient2.Bounds as Second
use load_shedding.Limits.Vegas.Bounds as Vegas

abbrev gradient2 : Gradient2Limit fixed
gradient2 = new_gradient2_limit fixed []

abbrev samples2 : List Second.Sample
samples2 =
    record { rtt = pos 3_000_000; inflight = pos 18; did_drop = false }
    ∷ record { rtt = pos 2_000_000; inflight = pos 15; did_drop = false }
    ∷ []

-- Idle enough, the limit grows by a fifth of the headroom at each sample.
gradient2_grows : gradient2_limit fixed (after_samples fixed samples2 gradient2) ≡ pos 21
unfolding gradient2_limit gradient2_on_sample smoothed long_after avg_add held_within wrap ◌+ℤ◌ ◌-ℤ◌
    ◌*ℤ◌
gradient2_grows = refl

gradient2_limit-between_example :
    (is_number fixed (after_samples fixed samples2 gradient2).estimated_limit ≡ false)
    ⊎ ((pos 20 ≤ℤ gradient2_limit fixed (after_samples fixed samples2 gradient2))
        × (gradient2_limit fixed (after_samples fixed samples2 gradient2) ≤ℤ pos 200))
unfolding ◌*ℤ◌
gradient2_limit-between_example =
    gradient2_limit-between fixed fixed-IsOrdered fixed-IsClamping samples2 gradient2
      (omega arith, omega arith) (omega arith, omega arith) (omega arith) (refl, refl)

abbrev vegas : VegasLimit fixed
vegas = new_vegas_limit fixed [] (pos 500)

abbrev samples : List (Vegas.Sample fixed)
samples =
    record { draw = pos 100; rtt = pos 1_050_000; inflight = pos 18; did_drop = false }
    ∷ record { draw = pos 100; rtt = pos 1_000_000; inflight = pos 15; did_drop = false }
    ∷ []

-- The first sample sets the no-load time, and the second finds a short queue.
vegas_grows : vegas_limit fixed (Vegas.after_samples fixed samples vegas) ≡ pos 26
unfolding new_vegas_limit vegas_limit vegas_on_sample probe_or_update update_estimated_limit
    react_to_queue settle_limit should_probe log10_int digits_below wrap ◌+ℤ◌ ◌-ℤ◌ ◌*ℤ◌
vegas_grows = refl

vegas_limit-between_example :
    (is_number fixed (Vegas.after_samples fixed samples vegas).estimated_limit ≡ false)
    ⊎ ((pos 1 ≤ℤ vegas_limit fixed (Vegas.after_samples fixed samples vegas))
        × (vegas_limit fixed (Vegas.after_samples fixed samples vegas) ≤ℤ pos 1000))
unfolding new_vegas_limit ◌*ℤ◌
vegas_limit-between_example =
    vegas_limit-between fixed fixed-IsOrdered fixed-IsClamping fixed-IsUnital samples vegas
      (omega arith, omega arith) (omega arith) refl (refl, refl)

abbrev gradient : GradientLimit fixed
gradient = new_gradient_limit fixed [] (pos 7)

abbrev samples1 : List First.Sample
samples1 =
    record { draw = pos 3; rtt = pos 9_000_000; inflight = pos 60; did_drop = false }
    ∷ record { draw = pos 3; rtt = pos 1_000_000; inflight = pos 60; did_drop = false }
    ∷ []

-- At the no-load time the limit grows by the queue size 4, and at nine times it the limit falls.
gradient_falls : gradient_limit fixed (First.after_samples fixed samples1 gradient) ≡ pos 49
unfolding gradient_limit gradient_on_sample react_to_rtt probe store_limit softened sqrt_below wrap
    ◌+ℤ◌ ◌-ℤ◌ ◌*ℤ◌
gradient_falls = refl

gradient_limit-between_example :
    HadNan fixed samples1 gradient
    ⊎ ((pos 1 ≤ℤ gradient_limit fixed (First.after_samples fixed samples1 gradient))
        × (gradient_limit fixed (First.after_samples fixed samples1 gradient) ≤ℤ pos 1000))
unfolding ◌*ℤ◌
gradient_limit-between_example =
    gradient_limit-between fixed fixed-IsOrdered fixed-IsClamping fixed-IsLattice samples1 gradient
      refl (omega arith) (omega arith) (omega arith, omega arith) (omega arith) (refl, refl)

-- A cap below the queue size does not hold.
abbrev capped : GradientLimit fixed
capped =
    new_gradient_limit fixed
      (gradient_max_concurrency fixed (pos 2) ∷ gradient_initial_limit fixed (pos 2) ∷ []) (pos 7)

capped_exceeds : gradient_limit fixed (First.after_samples fixed samples1 capped) ≡ pos 4
unfolding gradient_limit gradient_on_sample react_to_rtt probe store_limit softened sqrt_below wrap
    ◌+ℤ◌ ◌-ℤ◌ ◌*ℤ◌
capped_exceeds = refl
