-- ===== src/Prelude/Bag.antt =====
-- Collections of threads and tasks whose order does not matter: taking one out, and adding up.
use load_shedding.Prelude.{
  ℕ, suc, ◌+◌, ◌≡◌, refl, List, [], ◌∷◌, ◌++◌, arith, length, if◌then◌else◌, ◌==◌, sym, ◌⊎◌, inl,
  inr,
}
use mathlib.Core.Path.{subst}

-- `Pick x xs rest`: `x` stands in `xs`, and `rest` is what else does.
pub data Pick {A : Type 0} (x : A) : List A → List A → Type 0 where
  here : {xs : List A} → Pick x (x ∷ xs) xs
  there : {y : A} {xs rest : List A} → Pick x xs rest → Pick x (y ∷ xs) (y ∷ rest)

-- The sum of a weight over a list.
abbrev pub total {ℓ} : {A : Type ℓ} → (A → ℕ) → List A → ℕ
total w [] = 0
total w (x ∷ xs) = w x + total w xs

pub total-append {ℓ} :
    {A : Type ℓ} (w : A → ℕ) (xs ys : List A) → total w (xs ++ ys) ≡ total w xs + total w ys
total-append w [] ys = omega arith
total-append w (x ∷ xs) ys = omega (arith, total-append w xs ys)

pub Pick-total :
    {A : Type 0} (w : A → ℕ) {x : A} {xs rest : List A}
    → Pick x xs rest
    → total w xs ≡ w x + total w rest
Pick-total w here = refl
Pick-total w (there p) = omega (arith, Pick-total w p)

pub Pick-length :
    {A : Type 0} {x : A} {xs rest : List A} → Pick x xs rest → length xs ≡ suc (length rest)
Pick-length here = refl
Pick-length (there p) = omega (arith, Pick-length p)

-- How often a number stands in a list.
abbrev pub one_if_eq : ℕ → ℕ → ℕ
one_if_eq a b = if a == b then 1 else 0

abbrev pub count : ℕ → List ℕ → ℕ
count a = total (one_if_eq a)

-- `Swap x y xs ys`: `ys` has `y` where `xs` has `x`.
pub data Swap {A : Type 0} (x y : A) : List A → List A → Type 0 where
  here : {xs : List A} → Swap x y (x ∷ xs) (y ∷ xs)
  there : {z : A} {xs ys : List A} → Swap x y xs ys → Swap x y (z ∷ xs) (z ∷ ys)

pub Swap-length : {A : Type 0} {x y : A} {xs ys : List A} → Swap x y xs ys → length xs ≡ length ys
Swap-length here = refl
Swap-length (there p) = omega (arith, Swap-length p)

pub Pick-head : {A : Type 0} {x : A} {xs rest : List A} → xs ≡ x ∷ rest → Pick x xs rest
Pick-head {x = x} {rest = rest} e = subst (λ l. Pick x l rest) (sym e) here

pub List-cases :
    {A : Type 0} (xs : List A) → (xs ≡ []) ⊎ ((x : A) × (rest : List A) × (xs ≡ x ∷ rest))
List-cases [] = inl refl
List-cases (x ∷ xs) = inr (x, xs, refl)

pub empty_of_length : {A : Type 0} (xs : List A) → length xs ≡ 0 → xs ≡ []
empty_of_length [] h = refl
empty_of_length (x ∷ xs) h = absurd (omega (arith, h))
