-- ===== src/Limits/Gradient2/Capped.antt =====
-- concurrencylimits/gradient2.go: the limit as an algorithm with a bound.
use load_shedding.Prelude.{inl, inr, arith}
use load_shedding.Prelude.Int.{ℤ, ◌≤ℤ◌}
use load_shedding.Prelude.Float.{Float64}
use load_shedding.Prelude.Float.Laws.{IsOrdered, IsClamping, IsCautious, IsExact}
use load_shedding.Limits.Limit.Capped.{Capped}
use load_shedding.Limits.Gradient2.{Gradient2Limit, gradient2_limit, gradient2}
use load_shedding.Limits.Gradient2.Bounds.{Inv, on_sample-Inv}

module _ (fl : Float64) (ordered : IsOrdered fl) (laws : IsClamping fl) (nan : IsCautious fl) where
  -- No number converts to at most 0.
  pub gradient2_limit_le :
      (low high : ℤ) (g : Gradient2Limit fl)
      → IsExact low
      → IsExact high
      → Inv fl low high g
      → gradient2_limit fl g ≤ℤ high
  unfolding gradient2_limit
  gradient2_limit_le low high g l h v = elim v.kept [
    | inl e ↦ ground (arith, nan.to_int_nan g.estimated_limit e, h.0)
    | inr (over, under) ↦ (laws.to_int_between low high g.estimated_limit l h over under).1
  ]

  abbrev pub gradient2_capped :
      (low high : ℤ) → IsExact low → IsExact high → low ≤ℤ high → Capped (gradient2 fl) high
  gradient2_capped low high l h between = record {
    IsKept = Inv fl low high;
    limit_le = λ g v. gradient2_limit_le low high g l h v;
    keeps = λ rtt inflight dropped g v.
        on_sample-Inv fl ordered laws low high
          (record { rtt = rtt; inflight = inflight; did_drop = dropped }) g between v;
  }
