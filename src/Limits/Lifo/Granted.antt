-- ===== src/Limits/Lifo/Granted.antt =====
-- concurrencylimits/lifo.go: counting the permits that wait to be picked up, and those handed out.
use load_shedding.Prelude.{ℕ, ◌+◌, ◌≡◌, refl, Option, none, some, List, [], ◌∷◌, arith, length}
use load_shedding.Prelude.Bag.{total, count}
use load_shedding.Limits.Lifo.{Waiter, update}
use load_shedding.Limits.Lifo.Holders.{handed}

abbrev pub one_if_some : {T : Type 0} → Option T → ℕ
one_if_some none = 0
one_if_some (some _) = 1

-- How many of these callers have been given a permit that they have not picked up.
abbrev pub granted_in : {T : Type 0} → (ℕ → Waiter T) → List ℕ → ℕ
granted_in heap = total (λ w. one_if_some (heap w).listener)

module _ {T : Type 0} where
  pub length-handed :
      (o : Option T) (xs : List T) → length (handed o xs) ≡ one_if_some o + length xs
  length-handed none xs = omega arith
  length-handed (some l) xs = omega arith

  -- A change of a waiter whose caller does not wait does not matter.
  pub granted_in_absent :
      (heap : ℕ → Waiter T) (w : ℕ) (v : Waiter T) (xs : List ℕ)
      → count w xs ≡ 0
      → granted_in (update heap w v) xs ≡ granted_in heap xs
  granted_in_absent heap w v [] h = refl
  granted_in_absent heap w v (x ∷ xs) h = ground (arith, granted_in_absent heap w v xs)

  pub granted_in_same :
      (heap : ℕ → Waiter T) (w : ℕ) (v : Waiter T) (xs : List ℕ)
      → v.listener ≡ (heap w).listener
      → granted_in (update heap w v) xs ≡ granted_in heap xs
  granted_in_same heap w v [] h = refl
  granted_in_same heap w v (x ∷ xs) h = ground (arith, granted_in_same heap w v xs)

  pub granted_in_given :
      (heap : ℕ → Waiter T) (w : ℕ) (v : Waiter T) (xs : List ℕ)
      → count w xs ≡ 1
      → granted_in (update heap w v) xs + one_if_some (heap w).listener
        ≡ granted_in heap xs + one_if_some v.listener
  granted_in_given heap w v [] h = ground arith
  granted_in_given heap w v (x ∷ xs) h =
      ground (arith, granted_in_given heap w v xs, granted_in_absent heap w v xs)
