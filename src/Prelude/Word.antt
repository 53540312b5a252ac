-- ===== src/Prelude/Word.antt =====
-- Go's int64 (and int, which is 64 bits wide on the supported platforms): a signed integer with
-- the wrap-around of two's complement.
use load_shedding.Prelude.{
  suc, ℕ, ◌+◌, ◌-◌, ◌*◌, ◌/◌, ◌%◌, ◌^◌, ◌≤◌, ◌<◌, ◌≡◌, arith, ltb, if◌then◌else◌,
}
use load_shedding.Prelude.Int.{sub_ℕ, ℤ, pos, negsuc, pos_part, neg_part, ◌+ℤ◌, ◌-ℤ◌, ◌*ℤ◌}

-- The bit pattern of an integer, and the integer of a bit pattern.
abbrev pub bits_of : ℤ → ℕ
bits_of a = (pos_part a + (2 ^ 64 - neg_part a % 2 ^ 64)) % 2 ^ 64

abbrev pub of_bits : ℕ → ℤ
of_bits w = if ltb w (2 ^ 63) then pos w else negsuc (2 ^ 64 - w - 1)

unfoldable pub wrap : ℤ → ℤ
wrap a = of_bits (bits_of a)

-- The range of an int64.
abbrev pub IsInt64 : ℤ → Type 0
IsInt64 a = (pos_part a < 2 ^ 63) × (neg_part a ≤ 2 ^ 63)

pub wrap_id : (a : ℤ) → IsInt64 a → wrap a ≡ a
unfolding wrap
wrap_id a h = ground arith

pub wrap-IsInt64 : (a : ℤ) → IsInt64 (wrap a)
unfolding wrap
wrap-IsInt64 a = ground arith

abbrev pub min_int64 : ℤ
min_int64 = negsuc (2 ^ 63 - 1)

abbrev pub max_int64 : ℤ
max_int64 = pos (2 ^ 63 - 1)

abbrev pub add64 : ℤ → ℤ → ℤ
add64 a b = wrap (a +ℤ b)

abbrev pub sub64 : ℤ → ℤ → ℤ
sub64 a b = wrap (a -ℤ b)

abbrev pub mul64 : ℤ → ℤ → ℤ
mul64 a b = wrap (a *ℤ b)

-- `atomic.Int64.Add(1)` and `Add(-1)`.
abbrev pub incr : ℤ → ℤ
incr a = add64 a (pos 1)

abbrev pub decr : ℤ → ℤ
decr a = add64 a (negsuc 0)

pub incr_pos : (n : ℕ) → n + 1 < 2 ^ 63 → incr (pos n) ≡ pos (n + 1)
unfolding wrap ◌+ℤ◌
incr_pos n h = ground arith

pub decr_pos : (n : ℕ) → n < 2 ^ 63 → 0 < n → decr (pos n) ≡ pos (n - 1)
unfolding wrap ◌+ℤ◌
decr_pos n h k = ground arith

-- The two cancel, also where the counter wraps.
pub decr-incr : (a : ℤ) → IsInt64 a → decr (incr a) ≡ a
unfolding wrap ◌+ℤ◌
decr-incr a h = ground arith

-- A counter that is incremented once for each of `n` events.
pub incr-wrap_pos : (n : ℕ) → incr (wrap (pos n)) ≡ wrap (pos (n + 1))
unfolding wrap ◌+ℤ◌
incr-wrap_pos n = ground arith

-- Division that rounds towards zero.
abbrev pub quot : ℤ → ℤ → ℤ
quot a b =
    sub_ℕ (pos_part a / pos_part b + neg_part a / neg_part b)
      (pos_part a / neg_part b + neg_part a / pos_part b)

-- Go's `-x`.
abbrev pub neg64 : ℤ → ℤ
neg64 a = sub64 (pos 0) a

-- Go's `a % b` at a positive constant `b`: the remainder has the sign of `a`.
abbrev pub rem_by : ℤ → ℕ → ℤ
rem_by (pos n) m = pos (n % m)
rem_by (negsuc n) m = pos 0 -ℤ pos (suc n % m)

pub add64_pos : (a b : ℕ) → a + b < 2 ^ 63 → add64 (pos a) (pos b) ≡ pos (a + b)
unfolding wrap ◌+ℤ◌
add64_pos a b h = ground arith

pub mul64_pos : (a b : ℕ) → a * b < 2 ^ 63 → mul64 (pos a) (pos b) ≡ pos (a * b)
unfolding wrap ◌*ℤ◌
mul64_pos a b h = ground arith

pub neg64_negsuc : (n : ℕ) → n + 1 < 2 ^ 63 → neg64 (negsuc n) ≡ pos (n + 1)
unfolding wrap ◌-ℤ◌
neg64_negsuc n h = ground arith
