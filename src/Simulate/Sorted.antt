-- ===== src/Simulate/Sorted.antt =====
-- simulate/simulate.go: the sort of the latencies.
use load_shedding.Prelude.{
  suc, ◌≡◌, refl, ◌⊎◌, inl, inr, Bool, true, false, List, [], ◌∷◌, length, arith, Bool-cases,
  if◌then◌else◌,
}
use load_shedding.Prelude.Int.{◌≤ℤ◌, ltb_ℤ}
use load_shedding.Prelude.Time.{Duration}
use load_shedding.Simulate.{insert, sort_latencies}

abbrev pub Among : Duration → List Duration → Type 0
Among d [] = ⊥
Among d (x ∷ xs) = (d ≡ x) ⊎ Among d xs

abbrev pub IsLeast : Duration → List Duration → Type 0
IsLeast d [] = Unit {0}
IsLeast d (x ∷ xs) = (d ≤ℤ x) × IsLeast d xs

abbrev pub IsSorted : List Duration → Type 0
IsSorted [] = Unit {0}
IsSorted (x ∷ xs) = IsLeast x xs × IsSorted xs

IsLeast-trans : (d e : Duration) (xs : List Duration) → d ≤ℤ e → IsLeast e xs → IsLeast d xs
IsLeast-trans d e [] h l = tt
IsLeast-trans d e (x ∷ xs) h l = (omega (arith, l.0), IsLeast-trans d e xs h l.1)

insert-IsLeast :
    (d e : Duration) (xs : List Duration) → d ≤ℤ e → IsLeast d xs → IsLeast d (insert e xs)
unfolding insert
insert-IsLeast d e [] h l = (h, tt)
insert-IsLeast d e (x ∷ xs) h l = elim (Bool-cases (ltb_ℤ x e)) [
  | inl k ↦ rw k (l.0, insert-IsLeast d e xs h l.1)
  | inr k ↦ rw k (h, l)
]

insert-IsSorted : (d : Duration) (xs : List Duration) → IsSorted xs → IsSorted (insert d xs)
unfolding insert
insert-IsSorted d [] s = (tt, tt)
insert-IsSorted d (x ∷ xs) s = elim (Bool-cases (ltb_ℤ x d)) [
  | inl k ↦ rw k (insert-IsLeast x d xs (ground arith) s.0, insert-IsSorted d xs s.1)
  | inr k ↦ let below : d ≤ℤ x = ground arith in rw k ((below, IsLeast-trans d x xs below s.0), s)
]

pub sort_latencies-IsSorted : (xs : List Duration) → IsSorted (sort_latencies xs)
unfolding sort_latencies
sort_latencies-IsSorted [] = tt
sort_latencies-IsSorted (x ∷ xs) =
    insert-IsSorted x (sort_latencies xs) (sort_latencies-IsSorted xs)

length-insert : (d : Duration) (xs : List Duration) → length (insert d xs) ≡ suc (length xs)
unfolding insert
length-insert d [] = refl
length-insert d (x ∷ xs) = ground (arith, length-insert d xs)

pub length-sort_latencies : (xs : List Duration) → length (sort_latencies xs) ≡ length xs
unfolding sort_latencies
length-sort_latencies [] = refl
length-sort_latencies (x ∷ xs) =
    omega (arith, length-insert x (sort_latencies xs), length-sort_latencies xs)

Among-if :
    (b : Bool) (a d x : Duration) (xs rest : List Duration)
    → (Among a rest → Among a (d ∷ xs))
    → Among a (if b then x ∷ rest else d ∷ x ∷ xs)
    → Among a (d ∷ x ∷ xs)
Among-if false a d x xs rest ih h = h
Among-if true a d x xs rest ih (inl e) = inr (inl e)
Among-if true a d x xs rest ih (inr h) = elim (ih h) [ inl e ↦ inl e | inr k ↦ inr (inr k) ]

insert-Among : (a d : Duration) (xs : List Duration) → Among a (insert d xs) → Among a (d ∷ xs)
unfolding insert
insert-Among a d [] h = h
insert-Among a d (x ∷ xs) h = Among-if (ltb_ℤ x d) a d x xs (insert d xs) (insert-Among a d xs) h

pub sort_latencies-Among :
    (a : Duration) (xs : List Duration) → Among a (sort_latencies xs) → Among a xs
unfolding sort_latencies
sort_latencies-Among a [] h = h
sort_latencies-Among a (x ∷ xs) h = elim (insert-Among a x (sort_latencies xs) h) [
  | inl e ↦ inl e
  | inr k ↦ inr (sort_latencies-Among a xs k)
]
