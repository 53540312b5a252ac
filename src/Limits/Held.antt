-- ===== src/Limits/Held.antt =====
-- concurrencylimits/: the clamp `math.Max(low, math.Min(high, x))` of the adaptive limits.
use load_shedding.Prelude.{◌≡◌, ◌⊎◌, inl, inr, true, false, arith, Bool-cases}
use load_shedding.Prelude.Int.{ℤ, ◌≤ℤ◌}
use load_shedding.Prelude.Float.{Float64}
use load_shedding.Prelude.Float.Laws.{is_number, IsOrdered, IsClamping}

module _ (fl : Float64) where
  unfoldable pub held_within : ℤ → ℤ → fl.F → fl.F
  held_within low high x = fl.maximum (fl.of_int low) (fl.minimum (fl.of_int high) x)

  abbrev pub IsBetween : ℤ → ℤ → fl.F → Type 0
  IsBetween low high x = (fl.le (fl.of_int low) x ≡ true) × (fl.le x (fl.of_int high) ≡ true)

  -- No number, or a number in the range.
  abbrev pub IsKept : ℤ → ℤ → fl.F → Type 0
  IsKept low high x = (is_number fl x ≡ false) ⊎ IsBetween low high x

  module _ (ordered : IsOrdered fl) (laws : IsClamping fl) where
    pub held_within-IsKept :
        (low high : ℤ) (x : fl.F) → low ≤ℤ high → IsKept low high (held_within low high x)
    unfolding held_within
    held_within-IsKept low high x h = elim (Bool-cases (is_number fl x)) [
      | inl e ↦
          let top = ordered.of_int_mono high high (omega arith) in
          let bottom = ordered.of_int_mono low low (omega arith) in
          let (under, number) = laws.minimum_lower (fl.of_int high) x top e in
          let (over, _) =
            laws.maximum_upper (fl.of_int low) (fl.minimum (fl.of_int high) x) bottom number in
          inr (
            over,
            laws.maximum_least (fl.of_int low) (fl.minimum (fl.of_int high) x) (fl.of_int high)
                (ordered.of_int_mono low high h) under,
          )
      | inr e ↦
          inl (laws.maximum_nan low (fl.minimum (fl.of_int high) x) (laws.minimum_nan high x e))
    ]
