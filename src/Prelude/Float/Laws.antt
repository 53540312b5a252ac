-- ===== src/Prelude/Float/Laws.antt =====
-- What theorems ask of float64: documented facts of IEEE 754 arithmetic and of package math. The order
-- facts hold also where a NaN occurs, since each comparison with a NaN is false.
use load_shedding.Prelude.{◌≡◌, true, false, Bool, ◌^◌, ◌⊎◌}
use load_shedding.Prelude.Int.{ℤ, pos, ◌≤ℤ◌}
use load_shedding.Prelude.Float.{Float64}

-- The comparisons, and the conversion from an integer, which rounds.
pub record IsOrdered (fl : Float64) : Type 0 where
  pub lt-le_trans : (a b c : fl.F) → fl.lt a b ≡ true → fl.le b c ≡ true → fl.lt a c ≡ true
  pub le_trans : (a b c : fl.F) → fl.le a b ≡ true → fl.le b c ≡ true → fl.le a c ≡ true
  pub of_int_mono : (a b : ℤ) → a ≤ℤ b → fl.le (fl.of_int a) (fl.of_int b) ≡ true

-- `x == x`, which fails just for a NaN.
abbrev pub is_number : (fl : Float64) → fl.F → Bool
is_number fl x = fl.le x x

-- An integer that float64 holds exactly, as a limit.
abbrev pub IsExact : ℤ → Type 0
IsExact a = (pos 0 ≤ℤ a) × (a ≤ℤ pos (2 ^ 53))

-- `math.Max` and `math.Min`, which of a finite number and a NaN make a NaN, and the truncation of a number in a range.
pub record IsClamping (fl : Float64) : Type 0 where
  pub minimum_lower :
      (a b : fl.F)
      → is_number fl a ≡ true
      → is_number fl b ≡ true
      → (fl.le (fl.minimum a b) a ≡ true) × (is_number fl (fl.minimum a b) ≡ true)
  pub maximum_upper :
      (a b : fl.F)
      → is_number fl a ≡ true
      → is_number fl b ≡ true
      → (fl.le a (fl.maximum a b) ≡ true) × (is_number fl (fl.maximum a b) ≡ true)
  pub maximum_least :
      (a b c : fl.F) → fl.le a c ≡ true → fl.le b c ≡ true → fl.le (fl.maximum a b) c ≡ true
  pub minimum_nan :
      (a : ℤ) (b : fl.F)
      → is_number fl b ≡ false
      → is_number fl (fl.minimum (fl.of_int a) b) ≡ false
  pub maximum_nan :
      (a : ℤ) (b : fl.F)
      → is_number fl b ≡ false
      → is_number fl (fl.maximum (fl.of_int a) b) ≡ false
  pub to_int_between :
      (low high : ℤ) (x : fl.F)
      → IsExact low
      → IsExact high
      → fl.le (fl.of_int low) x ≡ true
      → fl.le x (fl.of_int high) ≡ true
      → (low ≤ℤ fl.to_int x) × (fl.to_int x ≤ℤ high)

-- The arithmetic of 0 and 1, and that a NaN stays one. A product of 0 with a number from 1 to a
-- finite bound is 0.
pub record IsUnital (fl : Float64) : Type 0 where
  pub one_minus_one :
      fl.minus (fl.ratio (pos 1) (pos 1)) (fl.ratio (pos 1) (pos 1)) ≡ fl.of_int (pos 0)
  pub zero_mul :
      (high : ℤ) (x : fl.F)
      → IsExact high
      → fl.le (fl.of_int (pos 1)) x ≡ true
      → fl.le x (fl.of_int high) ≡ true
      → fl.mul (fl.of_int (pos 0)) x ≡ fl.of_int (pos 0)
  pub one_mul : (x : fl.F) → fl.mul (fl.ratio (pos 1) (pos 1)) x ≡ x
  pub zero_add : (x : fl.F) → fl.le (fl.of_int (pos 1)) x ≡ true → fl.add (fl.of_int (pos 0)) x ≡ x
  pub mul_nan : (a b : fl.F) → is_number fl b ≡ false → is_number fl (fl.mul a b) ≡ false
  pub add_nan :
      (a b : fl.F)
      → (is_number fl a ≡ false) ⊎ (is_number fl b ≡ false)
      → is_number fl (fl.add a b) ≡ false

-- A factor from 0 to 1.
abbrev pub IsWeight : (fl : Float64) → fl.F → Type 0
IsWeight fl w = (fl.le (fl.of_int (pos 0)) w ≡ true) × (fl.le w (fl.of_int (pos 1)) ≡ true)

-- Products with a weight and sums of numbers that are not negative respect the order, although they
-- round; and a thousand is exactly 95 and 5 hundredths of itself.
pub record IsMonotone (fl : Float64) : Type 0 where
  pub mul_nonneg :
      (m : ℤ) (w : fl.F)
      → IsExact m
      → IsWeight fl w
      → fl.le (fl.of_int (pos 0)) (fl.mul (fl.of_int m) w) ≡ true
  pub mul_mono :
      (m n : ℤ) (w : fl.F)
      → IsExact m
      → IsExact n
      → m ≤ℤ n
      → IsWeight fl w
      → fl.le (fl.mul (fl.of_int m) w) (fl.mul (fl.of_int n) w) ≡ true
  pub add_nonneg :
      (a b : fl.F)
      → fl.le (fl.of_int (pos 0)) a ≡ true
      → fl.le (fl.of_int (pos 0)) b ≡ true
      → fl.le (fl.of_int (pos 0)) (fl.add a b) ≡ true
  pub add_mono :
      (a b c d : fl.F)
      → fl.le (fl.of_int (pos 0)) a ≡ true
      → fl.le (fl.of_int (pos 0)) c ≡ true
      → fl.le a b ≡ true
      → fl.le c d ≡ true
      → fl.le (fl.add a c) (fl.add b d) ≡ true
  pub most : IsWeight fl (fl.ratio (pos 19) (pos 20))
  pub little : IsWeight fl (fl.ratio (pos 1) (pos 20))
  pub thousand :
      fl.add
        (fl.mul (fl.of_int (pos 1000)) (fl.ratio (pos 19) (pos 20)))
        (fl.mul (fl.of_int (pos 1000)) (fl.ratio (pos 1) (pos 20)))
      ≡ fl.of_int (pos 1000)

-- `math.Max` and `math.Min` of numbers as bounds, and the square root of a whole number.
pub record IsLattice (fl : Float64) : Type 0 where
  pub minimum_greatest :
      (a b c : fl.F) → fl.le c a ≡ true → fl.le c b ≡ true → fl.le c (fl.minimum a b) ≡ true
  pub maximum_right :
      (a b : fl.F) → is_number fl a ≡ true → is_number fl b ≡ true → fl.le b (fl.maximum a b) ≡ true
  pub maximum_nan_between :
      (high : ℤ) (a b : fl.F)
      → IsExact high
      → fl.le (fl.of_int (pos 0)) a ≡ true
      → fl.le a (fl.of_int high) ≡ true
      → is_number fl b ≡ false
      → is_number fl (fl.maximum a b) ≡ false
  pub le_of_not_lt :
      (a b : fl.F)
      → is_number fl a ≡ true
      → is_number fl b ≡ true
      → fl.lt a b ≡ false
      → fl.le b a ≡ true
  pub number_of_le :
      (a b : fl.F) → fl.le a b ≡ true → (is_number fl a ≡ true) × (is_number fl b ≡ true)
  pub sqrt_between :
      (n : ℤ)
      → pos 1 ≤ℤ n
      → IsExact n
      → (fl.le (fl.of_int (pos 0)) (fl.sqrt (fl.of_int n)) ≡ true)
        × (fl.le (fl.sqrt (fl.of_int n)) (fl.of_int n) ≡ true)

-- Products of whole numbers with a weight: not above the number, and in the order of the weights. The
-- truncation of numbers that are not negative respects the order.
pub record IsScaling (fl : Float64) : Type 0 where
  pub mul_le :
      (m : ℤ) (w : fl.F)
      → IsExact m
      → IsWeight fl w
      → fl.le (fl.mul (fl.of_int m) w) (fl.of_int m) ≡ true
  pub mul_weight_mono :
      (m : ℤ) (v w : fl.F)
      → IsExact m
      → IsWeight fl v
      → IsWeight fl w
      → fl.le v w ≡ true
      → fl.le (fl.mul (fl.of_int m) v) (fl.mul (fl.of_int m) w) ≡ true
  pub to_int_mono :
      (high : ℤ) (x y : fl.F)
      → IsExact high
      → fl.le (fl.of_int (pos 0)) x ≡ true
      → fl.le x y ≡ true
      → fl.le y (fl.of_int high) ≡ true
      → fl.to_int x ≤ℤ fl.to_int y
  pub half : IsWeight fl (fl.ratio (pos 1) (pos 2))
  pub almost : IsWeight fl (fl.ratio (pos 99) (pos 100))
  pub half_most : fl.le (fl.ratio (pos 1) (pos 2)) (fl.ratio (pos 19) (pos 20)) ≡ true
  pub most_almost : fl.le (fl.ratio (pos 19) (pos 20)) (fl.ratio (pos 99) (pos 100)) ≡ true

-- `int(x)` of a NaN, which is the least int64 on amd64 and 0 on arm64.
pub record IsCautious (fl : Float64) : Type 0 where
  pub to_int_nan : (x : fl.F) → is_number fl x ≡ false → fl.to_int x ≤ℤ pos 0
