-- ===== src/Queue/Cpu.antt =====
-- queue/cpu_linux.go: the parsers of the cgroup files. A string is the list of its character codes.
pub mod Cpuset
pub mod Text
pub mod Cgroup
pub mod Sampler
pub mod Decimal
use load_shedding.Prelude.{
  ℕ, zero, suc, ◌+◌, ◌-◌, ◌*◌, ◌^◌, Bool, true, false, Option, none, some, List, [], ◌∷◌, ◌++◌, ltb,
  leb, if◌then◌else◌, ◌==◌, ◌&&◌, not,
}
use load_shedding.Prelude.Bag.{count}
use load_shedding.Prelude.Int.{ℤ, pos, negsuc, sub_ℕ}

-- What `strconv.ParseInt(s, 10, 64)` returns: a number, or one of its two errors.
pub data Parsed : Type 0 where
  value : ℤ → Parsed
  syntax_error out_of_range : Parsed

abbrev is_digit : ℕ → Bool
is_digit c = leb 48 c && leb c 57

-- The same for `strconv.ParseUint` on the digits.
pub data Scanned : Type 0 where
  number : ℕ → Scanned
  not_digits too_large : Scanned

-- The first fault counts.
unfoldable pub scan : List ℕ → ℕ → Scanned
scan [] n = number n
scan (c ∷ rest) n =
    let later = scan rest (n * 10 + (c - 48)) in
    if not (is_digit c)
    then not_digits
    else if leb (2 ^ 64) (n * 10 + (c - 48))
    then too_large
    else later

with_sign : Bool → Scanned → Parsed
with_sign negative not_digits = syntax_error
with_sign negative too_large = out_of_range
with_sign true (number n) = if leb n (2 ^ 63) then value (sub_ℕ 0 n) else out_of_range
with_sign false (number n) = if ltb n (2 ^ 63) then value (pos n) else out_of_range

unsigned : Bool → List ℕ → Parsed
unfolding with_sign scan
unsigned negative [] = syntax_error
unsigned negative (c ∷ rest) = with_sign negative (scan (c ∷ rest) 0)

unfoldable pub parse_int : List ℕ → Parsed
unfolding unsigned
parse_int [] = syntax_error
parse_int (c ∷ rest) =
    if c == 43
    then unsigned false rest
    else if c == 45
    then unsigned true rest
    else unsigned false (c ∷ rest)

-- `strconv.ParseInt(s, 10, 64)` and `strconv.ParseUint(s, 10, 64)`, where any error is one.
int_value : Parsed → Option ℤ
int_value (value n) = some n
int_value _ = none

unfoldable pub read_int64 : List ℕ → Option ℤ
unfolding int_value parse_int
read_int64 s = int_value (parse_int s)

uint_value : Scanned → Option ℕ
uint_value (number n) = some n
uint_value _ = none

unfoldable pub read_uint64 : List ℕ → Option ℕ
unfolding uint_value scan
read_uint64 [] = none
read_uint64 (c ∷ rest) = uint_value (scan (c ∷ rest) 0)

clamped : Parsed → Option ℕ
clamped (value (pos n)) = some n
clamped (value (negsuc _)) = some 0
clamped syntax_error = none
clamped out_of_range = some 0

-- `parseUint`; `none` is an error.
unfoldable pub parse_uint : List ℕ → Option ℕ
unfolding clamped parse_int
parse_uint s = clamped (parse_int s)

cons_head : ℕ → List (List ℕ) → List (List ℕ)
cons_head c [] = (c ∷ []) ∷ []
cons_head c (word ∷ rest) = (c ∷ word) ∷ rest

-- `strings.Split` at one character.
unfoldable pub split : ℕ → List ℕ → List (List ℕ)
unfolding cons_head
split separator [] = [] ∷ []
split separator (c ∷ rest) =
    let later = split separator rest in if c == separator then [] ∷ later else cons_head c later

cut_after : ℕ → List ℕ × Option (List ℕ) → List ℕ × Option (List ℕ)
cut_after c (before, after) = (c ∷ before, after)

-- `strings.SplitN(s, "-", 2)`: the second field where there is one.
unfoldable pub cut : List ℕ → List ℕ × Option (List ℕ)
unfolding cut_after
cut [] = ([], none)
cut (c ∷ rest) = let later = cut rest in if c == 45 then ([], some rest) else cut_after c later

single : Option ℕ → Option (ℕ × ℕ)
single none = none
single (some v) = some (v, v)

both : Option ℕ → Option ℕ → Option (ℕ × ℕ)
both (some low) (some high) = if ltb high low then none else some (low, high)
both _ _ = none

interval : List ℕ × Option (List ℕ) → Option (ℕ × ℕ)
unfolding single both parse_uint
interval (word, none) = single (parse_uint word)
interval (low, some high) = both (parse_uint low) (parse_uint high)

-- The numbers that one part of the list stands for, from the first to the last.
unfoldable pub interval_of : List ℕ → Option (ℕ × ℕ)
unfolding interval cut
interval_of part = interval (cut part)

-- `seen` has just the numbers of `sets`.
unfoldable pub add_new : ℕ → List ℕ → List ℕ
add_new i sets = if ltb 0 (count i sets) then sets else sets ++ (i ∷ [])

-- The loop over a range, by the number of its rounds. It does not wrap: `parse_uint` stays below 2^63.
unfoldable pub add_range : ℕ → ℕ → List ℕ → List ℕ
unfolding add_new
add_range zero i sets = sets
add_range (suc k) i sets = add_range k (i + 1) (add_new i sets)

add_part : (List ℕ → Option (List ℕ)) → Option (ℕ × ℕ) → List ℕ → Option (List ℕ)
unfolding add_range
add_part later none sets = none
add_part later (some (low, high)) sets = later (add_range (high + 1 - low) low sets)

unfoldable pub add_parts : List (List ℕ) → List ℕ → Option (List ℕ)
unfolding add_part interval_of
add_parts [] sets = some sets
add_parts (part ∷ rest) sets = add_part (add_parts rest) (interval_of part) sets

-- `parseUints`; `none` is an error.
unfoldable pub parse_uints : List ℕ → Option (List ℕ)
unfolding add_parts split
parse_uints [] = some []
parse_uints (c ∷ rest) = add_parts (split 44 (c ∷ rest)) []
