-- ===== src/Queue/Cpu/Decimal.antt =====
-- queue/cpu_linux.go: the parsers read back the numbers and the ranges that the kernel writes.
use load_shedding.Prelude.{
  ℕ, zero, suc, ◌+◌, ◌*◌, ◌/◌, ◌%◌, ◌^◌, ◌≤◌, ◌<◌, ◌≡◌, refl, none, some, [], ◌∷◌, ◌++◌, arith, ltb,
  List, ap, sym, ◌∙◌, ◌-◌, if◌then◌else◌, dec_lt,
}
use load_shedding.Prelude.Bag.{count}
use load_shedding.Prelude.Int.{pos}
use load_shedding.Queue.Cpu.{
  number, scan, with_sign, unsigned, parse_int, clamped, parse_uint, read_int64, read_uint64,
  int_value, uint_value, cut, cut_after, both, interval, interval_of, add_new, add_range, add_part,
  add_parts, parse_uints, split,
}
use load_shedding.Queue.Cpu.Text.{Text}

-- The decimal digits of `n` before `later`, on fuel.
abbrev digits_onto : ℕ → ℕ → Text → Text
digits_onto zero n later = later
digits_onto (suc fuel) n later =
    if ltb n 10 then (48 + n) ∷ later else digits_onto fuel (n / 10) ((48 + n % 10) ∷ later)

abbrev pub decimal : ℕ → Text
decimal n = digits_onto (suc n) n []

-- A range as the kernel writes it.
abbrev pub range_text : ℕ → ℕ → Text
range_text low high = decimal low ++ 45 ∷ decimal high

-- A first digit, and no other character than digits.
abbrev StartsDigit : Text → Type 0
StartsDigit [] = ⊥
StartsDigit (c ∷ rest) = 48 ≤ c

abbrev AllDigits : Text → Type 0
AllDigits [] = Unit {0}
AllDigits (c ∷ rest) = (48 ≤ c) × AllDigits rest

digits_onto-AllDigits :
    (fuel n : ℕ) (later : Text) → AllDigits later → AllDigits (digits_onto fuel n later)
digits_onto-AllDigits zero n later h = h
digits_onto-AllDigits (suc fuel) n later h = elim (dec_lt n 10) [
  | yes small ↦ ground (arith)
  | no large ↦
      let more = digits_onto-AllDigits fuel (n / 10) ((48 + n % 10) ∷ later) (omega arith, h) in
      ground (arith, more)
]

digits_onto-StartsDigit :
    (fuel n : ℕ) (later : Text) → StartsDigit later → StartsDigit (digits_onto fuel n later)
digits_onto-StartsDigit zero n later h = h
digits_onto-StartsDigit (suc fuel) n later h =
    let more = digits_onto-StartsDigit fuel (n / 10) ((48 + n % 10) ∷ later) (omega arith) in
    ground (arith, more)

decimal-StartsDigit : (n : ℕ) → StartsDigit (decimal n)
decimal-StartsDigit n =
    let more = digits_onto-StartsDigit n (n / 10) ((48 + n % 10) ∷ []) (omega arith) in
    ground (arith, more)

scan-digits_onto :
    (fuel n : ℕ) (later : Text)
    → n < fuel
    → n < 2 ^ 64
    → scan (digits_onto fuel n later) 0 ≡ scan later n
unfolding scan
scan-digits_onto zero n later f h = absurd (omega arith)
scan-digits_onto (suc fuel) n later f h = elim (dec_lt n 10) [
  | yes small ↦ ground arith
  | no large ↦
      let more =
        scan-digits_onto fuel (n / 10) ((48 + n % 10) ∷ later) (omega arith) (omega arith) in
      let whole : n / 10 * 10 + n % 10 ≡ n = omega arith in ground (arith, more, whole)
]

-- Where a text of digits scans as a number, so do the parsers read it.
read_back :
    (s : Text) (n : ℕ)
    → StartsDigit s
    → scan s 0 ≡ number n
    → n < 2 ^ 63
    → (parse_uint s ≡ some n) × (read_int64 s ≡ some (pos n)) × (read_uint64 s ≡ some n)
unfolding parse_uint parse_int unsigned with_sign clamped read_int64 read_uint64 int_value
    uint_value
read_back [] n d e h = absurd d
read_back (c ∷ rest) n d e h = ground arith

-- Every number below 2^63, written in decimal, is read back by `parseUint`, `ParseInt` and `ParseUint`.
parse_uint-decimal :
    (n : ℕ)
    → n < 2 ^ 63
    → (parse_uint (decimal n) ≡ some n)
      × (read_int64 (decimal n) ≡ some (pos n))
      × (read_uint64 (decimal n) ≡ some n)
unfolding scan
parse_uint-decimal n h =
    read_back (decimal n) n (decimal-StartsDigit n)
      (scan-digits_onto (suc n) n [] (omega arith) (omega arith)) h

cut-append : (s t : Text) → AllDigits s → cut (s ++ 45 ∷ t) ≡ (s, some t)
unfolding cut cut_after
cut-append [] t h = refl
cut-append (c ∷ s) t h = ground (arith, cut-append s t h.1)

interval_of-range_text :
    (low high : ℕ)
    → low < 2 ^ 63
    → high < 2 ^ 63
    → interval_of (range_text low high) ≡ (if ltb high low then none else some (low, high))
unfolding interval_of interval both
interval_of-range_text low high h k =
    rw
      (
        cut-append (decimal low) (decimal high) (digits_onto-AllDigits (suc low) low [] tt),
        (parse_uint-decimal low h).0,
        (parse_uint-decimal high k).0,
      )
      refl

-- `k` numbers from `i` on.
abbrev pub numbers_from : ℕ → ℕ → List ℕ
numbers_from zero i = []
numbers_from (suc k) i = i ∷ numbers_from k (i + 1)

abbrev AllBelow : ℕ → List ℕ → Type 0
AllBelow i [] = Unit {0}
AllBelow i (x ∷ xs) = (x < i) × AllBelow i xs

count-AllBelow : (i : ℕ) (xs : List ℕ) → AllBelow i xs → count i xs ≡ 0
count-AllBelow i [] h = refl
count-AllBelow i (x ∷ xs) h = ground (arith, count-AllBelow i xs h.1, h.0)

append-AllBelow : (i : ℕ) (xs : List ℕ) → AllBelow i xs → AllBelow (i + 1) (xs ++ i ∷ [])
append-AllBelow i [] h = (omega arith, tt)
append-AllBelow i (x ∷ xs) h = (omega (arith, h.0), append-AllBelow i xs h.1)

append_assoc_one : (i : ℕ) (xs ys : List ℕ) → (xs ++ i ∷ []) ++ ys ≡ xs ++ i ∷ ys
append_assoc_one i [] ys = refl
append_assoc_one i (x ∷ xs) ys = ap (x ∷◌) (append_assoc_one i xs ys)

append_none : (xs : List ℕ) → xs ++ [] ≡ xs
append_none [] = refl
append_none (x ∷ xs) = ap (x ∷◌) (append_none xs)

add_range-AllBelow :
    (k i : ℕ) (sets : List ℕ) → AllBelow i sets → add_range k i sets ≡ sets ++ numbers_from k i
unfolding add_range add_new
add_range-AllBelow zero i sets h = sym (append_none sets)
add_range-AllBelow (suc k) i sets h = rw (count-AllBelow i sets h) (
    add_range-AllBelow k (i + 1) (sets ++ i ∷ []) (append-AllBelow i sets h)
    ∙ append_assoc_one i sets (numbers_from k (i + 1)))

-- No comma.
abbrev IsOnePart : Text → Type 0
IsOnePart [] = Unit {0}
IsOnePart (c ∷ rest) = (44 < c) × IsOnePart rest

AllDigits-IsOnePart : (s t : Text) → AllDigits s → IsOnePart t → IsOnePart (s ++ t)
AllDigits-IsOnePart [] t h k = k
AllDigits-IsOnePart (c ∷ s) t h k = (omega (arith, h.0), AllDigits-IsOnePart s t h.1 k)

split-IsOnePart : (s : Text) → IsOnePart s → split 44 s ≡ s ∷ []
unfolding split
split-IsOnePart [] h = refl
split-IsOnePart (c ∷ s) h = ground (arith, split-IsOnePart s h.1, h.0)

parse_one :
    (s : Text)
    → StartsDigit s
    → IsOnePart s
    → parse_uints s ≡ add_part (λ sets. some sets) (interval_of s) []
unfolding parse_uints add_parts
parse_one [] d h = absurd d
parse_one (c ∷ s) d h = rw (split-IsOnePart (c ∷ s) h) refl

digits-IsOnePart : (s : Text) → AllDigits s → IsOnePart s
digits-IsOnePart [] h = tt
digits-IsOnePart (c ∷ s) h = (omega (arith, h.0), digits-IsOnePart s h.1)

decimal-AllDigits : (n : ℕ) → AllDigits (decimal n)
decimal-AllDigits n = digits_onto-AllDigits (suc n) n [] tt

range_text-IsOnePart : (low high : ℕ) → IsOnePart (range_text low high)
range_text-IsOnePart low high =
    AllDigits-IsOnePart (decimal low) (45 ∷ decimal high) (decimal-AllDigits low)
      (omega arith, digits-IsOnePart (decimal high) (decimal-AllDigits high))

append-StartsDigit : (s t : Text) → StartsDigit s → StartsDigit (s ++ t)
append-StartsDigit [] t d = absurd d
append-StartsDigit (c ∷ s) t d = d

-- `parseUints` reads a range, written in decimal with its first and its last number, as the numbers from
-- the first to the last, in order; a range whose last number is below its first is an error. Both numbers
-- are below 2^63.
pub parse_uints-range_text :
    (low high : ℕ)
    → low < 2 ^ 63
    → high < 2 ^ 63
    → parse_uints (range_text low high)
      ≡ (if ltb high low then none else some (numbers_from (high + 1 - low) low))
unfolding add_part
parse_uints-range_text low high h k =
    rw
      (
        parse_one (range_text low high)
            (append-StartsDigit (decimal low) (45 ∷ decimal high) (decimal-StartsDigit low))
            (range_text-IsOnePart low high),
        interval_of-range_text low high h k,
      )
      (ground (arith, add_range-AllBelow (high + 1 - low) low [] tt))
