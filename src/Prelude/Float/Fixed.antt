-- ===== src/Prelude/Float/Fixed.antt =====
-- A number type that meets the laws, for examples: thousandths in place of float64, with no NaN.
use load_shedding.Prelude.{
  ◌≤◌, refl, ℕ, zero, suc, ◌+◌, ◌*◌, ◌/◌, ◌%◌, ◌-◌, ◌<◌, ◌^◌, ◌≡◌, true, not, arith, ltb, leb,
  if◌then◌else◌, Bool-cases, inl, inr,
}
use load_shedding.Prelude.Int.{
  negsuc, ℤ, pos, pos_part, neg_part, ◌+ℤ◌, ◌-ℤ◌, ◌*ℤ◌, ltb_ℤ, ◌≤ℤ◌, sub_ℕ,
}
use load_shedding.Prelude.Word.{quot}
use load_shedding.Prelude.Float.{Float64}
use load_shedding.Prelude.Float.Laws.{
  IsOrdered, IsClamping, IsUnital, IsExact, IsMonotone, IsLattice, IsScaling, IsCautious,
}

-- The greatest number of at most `n` whose square is at most `m`.
unfoldable pub sqrt_below : ℕ → ℕ → ℕ
sqrt_below zero m = 0
sqrt_below (suc n) m = let rest = sqrt_below n m in if leb (suc n * suc n) m then suc n else rest

-- The decimal digits of `n` after the first, on fuel.
unfoldable pub digits_below : ℕ → ℕ → ℕ
digits_below zero n = 0
digits_below (suc f) n = let rest = digits_below f (n / 10) in if ltb n 10 then 0 else suc rest

abbrev pub fixed : Float64
fixed = record {
  F = ℤ;
  of_int = λ n. pos 1000 *ℤ n;
  to_int = λ x. quot x (pos 1000);
  to_uint = λ x. pos_part (quot x (pos 1000)) % 2 ^ 64;
  ratio = λ n d. quot (pos 1000 *ℤ n) d;
  add = λ x y. x +ℤ y;
  minus = λ x y. x -ℤ y;
  mul = λ x y. quot (x *ℤ y) (pos 1000);
  div = λ x y. quot (pos 1000 *ℤ x) y;
  lt = λ x y. ltb_ℤ x y;
  le = λ x y. not (ltb_ℤ y x);
  maximum = λ x y. if ltb_ℤ x y then y else x;
  minimum = λ x y. if ltb_ℤ x y then x else y;
  sqrt = λ x. pos (sqrt_below 2000 (pos_part x * 1000));
  ceil = λ x. pos 1000 *ℤ sub_ℕ ((pos_part x + 999) / 1000) (neg_part x / 1000);
  log10 = λ x. pos (1000 * digits_below 20 (pos_part x / 1000));
}

lt-le_trans : (a b c : ℤ) → ltb_ℤ a b ≡ true → not (ltb_ℤ c b) ≡ true → ltb_ℤ a c ≡ true
lt-le_trans a b c h k = ground arith

scaled_mono : (a b : ℤ) → a ≤ℤ b → not (ltb_ℤ (pos 1000 *ℤ b) (pos 1000 *ℤ a)) ≡ true
unfolding ◌*ℤ◌
scaled_mono a b h = ground arith

pub fixed-IsOrdered : IsOrdered fixed
unfolding ◌+ℤ◌ ◌-ℤ◌ ◌*ℤ◌ sqrt_below digits_below
fixed-IsOrdered = record {
  lt-le_trans = lt-le_trans;
  le_trans = λ a b c h k. ground arith;
  of_int_mono = scaled_mono;
}

-- A number of thousandths from 1000 * a to 1000 * b.
quot-between : (a b n : ℕ) → a * 1000 ≤ n → n ≤ b * 1000 → (a ≤ n / 1000) × (n / 1000 ≤ b)
quot-between a b n h k = (omega arith, omega arith)

to_int_between :
    (low high x : ℤ)
    → IsExact low
    → IsExact high
    → not (ltb_ℤ x (pos 1000 *ℤ low)) ≡ true
    → not (ltb_ℤ (pos 1000 *ℤ high) x) ≡ true
    → (low ≤ℤ quot x (pos 1000)) × (quot x (pos 1000) ≤ℤ high)
unfolding ◌*ℤ◌
to_int_between (negsuc a) high x l h p q = absurd (omega (arith, l.0))
to_int_between (pos a) (negsuc b) x l h p q = absurd (omega (arith, h.0))
to_int_between (pos a) (pos b) (pos n) l h p q = ground (arith, quot-between a b n)
to_int_between (pos a) (pos b) (negsuc n) l h p q = ground arith

zero_mul : (x : ℤ) → quot (pos 0 *ℤ x) (pos 1000) ≡ pos 0
unfolding ◌*ℤ◌
zero_mul x = ground arith

one_mul : (x : ℤ) → quot (pos 1000 *ℤ x) (pos 1000) ≡ x
unfolding ◌*ℤ◌
one_mul (pos n) = ground arith
one_mul (negsuc n) = ground arith

zero_add : (x : ℤ) → pos 0 +ℤ x ≡ x
unfolding ◌+ℤ◌
zero_add (pos n) = ground arith
zero_add (negsuc n) = ground arith

pub fixed-IsClamping : IsClamping fixed
unfolding ◌*ℤ◌
fixed-IsClamping = record {
  minimum_lower = λ a b h k. ground arith;
  maximum_upper = λ a b h k. ground arith;
  maximum_least = λ a b c h k. ground arith;
  minimum_nan = λ a b h. ground arith;
  maximum_nan = λ a b h. ground arith;
  to_int_between = to_int_between;
}

pub fixed-IsUnital : IsUnital fixed
unfolding ◌*ℤ◌ ◌+ℤ◌ ◌-ℤ◌
fixed-IsUnital = record {
  one_minus_one = refl;
  zero_mul = λ high x h a b. zero_mul x;
  one_mul = one_mul;
  zero_add = λ x h. zero_add x;
  mul_nan = λ a b h. ground arith;
  add_nan = λ a b h. ground arith;
}

scaled_weight : (m w : ℕ) → quot ((pos 1000 *ℤ pos m) *ℤ pos w) (pos 1000) ≡ pos (m * w)
unfolding ◌*ℤ◌
scaled_weight m w = let e : 1000 * m * w / 1000 ≡ m * w = grind arith in ground (arith, e)

mul_mono :
    (m n w : ℤ)
    → IsExact m
    → IsExact n
    → m ≤ℤ n
    → not (ltb_ℤ w (pos 0)) ≡ true
    → (not (ltb_ℤ (quot ((pos 1000 *ℤ n) *ℤ w) (pos 1000)) (quot ((pos 1000 *ℤ m) *ℤ w) (pos 1000)))
        ≡ true)
      × (not (ltb_ℤ (quot ((pos 1000 *ℤ m) *ℤ w) (pos 1000)) (pos 0)) ≡ true)
mul_mono (negsuc m) n w a b h k = absurd (omega (arith, a.0))
mul_mono (pos m) (negsuc n) w a b h k = absurd (omega (arith, b.0))
mul_mono (pos m) (pos n) (negsuc w) a b h k = ground arith
mul_mono (pos m) (pos n) (pos w) a b h k =
    let less : m * w ≤ n * w = grind arith in
    rw (scaled_weight m w, scaled_weight n w) (ground (arith, less), ground arith)

add_mono :
    (a b c d : ℤ)
    → not (ltb_ℤ b a) ≡ true
    → not (ltb_ℤ d c) ≡ true
    → not (ltb_ℤ (b +ℤ d) (a +ℤ c)) ≡ true
unfolding ◌+ℤ◌
add_mono a b c d h k = ground arith

pub fixed-IsMonotone : IsMonotone fixed
unfolding ◌*ℤ◌ ◌+ℤ◌
fixed-IsMonotone = record {
  mul_nonneg = λ m w e h. (mul_mono m m w e e (omega arith) h.0).1;
  mul_mono = λ m n w e f h k. (mul_mono m n w e f h k.0).0;
  add_nonneg = λ a b h k. add_mono (pos 0) a (pos 0) b h k;
  add_mono = λ a b c d g h k l. add_mono a b c d k l;
  most = (refl, refl);
  little = (refl, refl);
  thousand = refl;
}

square_cancel : (n k : ℕ) → n * n ≤ k * k → n ≤ k
square_cancel n k h = elim (Bool-cases (leb n k)) [
  | inl e ↦ ground arith
  | inr e ↦
      let split : n ≡ suc k + (n - suc k) = ground arith in
      let over : k * k < n * n = rw split (grind arith) in absurd (omega arith)
]

-- A square root is not above a number that is not below 1.
sqrt_below-bound : (n m k : ℕ) → m ≤ k * k → sqrt_below n m ≤ k
unfolding sqrt_below
sqrt_below-bound zero m k h = omega arith
sqrt_below-bound (suc n) m k h =
    let before = sqrt_below-bound n m k h in
    elim (Bool-cases (leb (suc n * suc n) m)) [
      | inl e ↦
          let square : suc n * suc n ≤ k * k = ground arith in rw e (square_cancel (suc n) k square)
      | inr e ↦ rw e before
    ]

sqrt_between :
    (n : ℤ)
    → pos 1 ≤ℤ n
    → IsExact n
    → not (ltb_ℤ (pos 1000 *ℤ n) (pos (sqrt_below 2000 (pos_part (pos 1000 *ℤ n) * 1000)))) ≡ true
unfolding ◌*ℤ◌
sqrt_between (negsuc n) h e = absurd (omega (arith, h))
sqrt_between (pos n) h e =
    let small = sqrt_below-bound 2000 (1000 * n * 1000) (1000 * n) (grind arith) in
    ground (arith, small)

pub fixed-IsLattice : IsLattice fixed
unfolding ◌*ℤ◌
fixed-IsLattice = record {
  minimum_greatest = λ a b c h k. ground arith;
  maximum_right = λ a b h k. ground arith;
  maximum_nan_between = λ high a b e h k l. ground arith;
  le_of_not_lt = λ a b h k l. ground arith;
  number_of_le = λ a b h. (ground arith, ground arith);
  sqrt_between = λ n h e. (ground arith, sqrt_between n h e);
}

times_mono : (v w m : ℕ) → v ≤ w → v * m ≤ w * m
times_mono v w m h = grind arith

mul_le :
    (m w : ℤ)
    → IsExact m
    → not (ltb_ℤ w (pos 0)) ≡ true
    → not (ltb_ℤ (pos 1000) w) ≡ true
    → not (ltb_ℤ (pos 1000 *ℤ m) (quot ((pos 1000 *ℤ m) *ℤ w) (pos 1000))) ≡ true
unfolding ◌*ℤ◌
mul_le (negsuc m) w e h k = absurd (omega (arith, e.0))
mul_le (pos m) (negsuc w) e h k = ground arith
mul_le (pos m) (pos w) e h k =
    let less : m * w ≤ m * 1000 = omega (arith, times_mono w 1000 m (ground arith)) in
    rw (scaled_weight m w) (ground (arith, less))

mul_weight_mono :
    (m v w : ℤ)
    → IsExact m
    → not (ltb_ℤ v (pos 0)) ≡ true
    → not (ltb_ℤ w v) ≡ true
    → not (ltb_ℤ (quot ((pos 1000 *ℤ m) *ℤ w) (pos 1000)) (quot ((pos 1000 *ℤ m) *ℤ v) (pos 1000)))
      ≡ true
unfolding ◌*ℤ◌
mul_weight_mono (negsuc m) v w e h k = absurd (omega (arith, e.0))
mul_weight_mono (pos m) (negsuc v) w e h k = ground arith
mul_weight_mono (pos m) (pos v) (negsuc w) e h k = ground arith
mul_weight_mono (pos m) (pos v) (pos w) e h k =
    let less : m * v ≤ m * w = omega (arith, times_mono v w m (ground arith)) in
    rw (scaled_weight m v, scaled_weight m w) (ground (arith, less))

div_mono : (m n : ℕ) → m ≤ n → m / 1000 ≤ n / 1000
div_mono m n h = omega arith

pub fixed-IsScaling : IsScaling fixed
unfolding ◌*ℤ◌
fixed-IsScaling = record {
  mul_le = λ m w e k. mul_le m w e k.0 k.1;
  mul_weight_mono = λ m v w e h k l. mul_weight_mono m v w e h.0 l;
  to_int_mono = λ high x y e h k l. ground (arith, div_mono (pos_part x) (pos_part y));
  half = (refl, refl);
  almost = (refl, refl);
  half_most = refl;
  most_almost = refl;
}

pub fixed-IsCautious : IsCautious fixed
fixed-IsCautious = record { to_int_nan = λ x h. ground arith }
