-- ===== src/Limits/Gradient/Clamps.antt =====
-- concurrencylimits/gradient.go: the default queue size and the clamps of `OnSample` on any number.
use load_shedding.Prelude.{◌≡◌, ◌⊎◌, inl, inr, true, false, arith, Bool-cases}
use load_shedding.Prelude.Int.{ℤ, pos, ◌≤ℤ◌}
use load_shedding.Prelude.Float.{Float64}
use load_shedding.Prelude.Float.Laws.{is_number, IsOrdered, IsClamping, IsLattice, IsExact}
use load_shedding.Limits.Held.{IsBetween, IsKept}
use load_shedding.Limits.Gradient.{default_queue_size}

module _ (fl : Float64) (ordered : IsOrdered fl) (laws : IsClamping fl)
    (lattice : IsLattice fl) where
  open ordered use {le_trans, of_int_mono}

  pub of_int_number : (n : ℤ) → is_number fl (fl.of_int n) ≡ true
  of_int_number n = of_int_mono n n (omega arith)

  -- The default queue size at a limit from 1 to a maximum of at least 4.
  pub queue-IsBetween :
      (n high : ℤ)
      → pos 1 ≤ℤ n
      → n ≤ℤ high
      → pos 4 ≤ℤ high
      → IsExact high
      → IsBetween fl (pos 0) high (default_queue_size fl n)
  queue-IsBetween n high h k m e =
      let (root0, root1) = lattice.sqrt_between n h (omega arith) in
      let (over, _) =
        laws.maximum_upper (fl.of_int (pos 4)) (fl.sqrt (fl.of_int n)) (of_int_number (pos 4))
          (lattice.number_of_le _ _ root0).1 in
      (
        le_trans _ _ _ (of_int_mono (pos 0) (pos 4) (omega arith)) over,
        laws.maximum_least _ _ _ (of_int_mono (pos 4) high m)
            (le_trans _ _ _ root1 (of_int_mono n high k)),
      )

  pub above_least :
      (low : ℤ) (x : fl.F)
      → (is_number fl (fl.maximum (fl.of_int low) x) ≡ false)
        ⊎ (fl.le (fl.of_int low) (fl.maximum (fl.of_int low) x) ≡ true)
  above_least low x = elim (Bool-cases (is_number fl x)) [
    | inl e ↦ inr (laws.maximum_upper _ _ (of_int_number low) e).0
    | inr e ↦ inl (laws.maximum_nan low x e)
  ]

  -- The stored limit is at most the maximum, and keeps the lower bound that the new limit has.
  pub clamped :
      (low high : ℤ) (queue x : fl.F)
      → low ≤ℤ high
      → IsExact high
      → IsBetween fl (pos 0) high queue
      → (is_number fl x ≡ false) ⊎ (fl.le (fl.of_int low) x ≡ true)
      → IsKept fl low high (fl.maximum queue (fl.minimum (fl.of_int high) x))
  clamped low high queue x m e q (inl h) =
      inl (lattice.maximum_nan_between high _ _ e q.0 q.1 (laws.minimum_nan high x h))
  clamped low high queue x m e q (inr h) =
      let (under, number) =
        laws.minimum_lower (fl.of_int high) x (of_int_number high) (lattice.number_of_le _ _ h).1 in
      let over = lattice.minimum_greatest _ _ _ (of_int_mono low high m) h in
      inr (
        le_trans _ _ _ over (lattice.maximum_right _ _ (lattice.number_of_le _ _ q.0).1 number),
        laws.maximum_least _ _ _ q.1 under,
      )
