-- ===== src/Queue/Cpu/Cpuset.antt =====
-- queue/cpu_linux.go: the list of CPUs that `parseUints` reads.
use load_shedding.Prelude.{
  ℕ, zero, suc, ◌+◌, ◌-◌, ◌<◌, ◌≤◌, ◌^◌, ◌≡◌, Bool, true, false, Option, none, some, List, [], ◌∷◌,
  arith, ltb, leb, if◌then◌else◌, ◌==◌, ◌&&◌, ◌||◌,
}
use load_shedding.Prelude.Bag.{count, one_if_eq, total-append}
use load_shedding.Queue.Cpu.{
  Scanned, number, not_digits, too_large, with_sign, unsigned, scan, parse_int, clamped, parse_uint,
  interval_of, add_new, add_range, add_part, add_parts, parse_uints, split,
}

-- A part of the list names the number.
abbrev pub is_in : ℕ → Option (ℕ × ℕ) → Bool
is_in a none = false
is_in a (some (low, high)) = leb low a && leb a high

abbrev pub is_named : ℕ → List (List ℕ) → Bool
is_named a [] = false
is_named a (part ∷ rest) = is_in a (interval_of part) || is_named a rest

count-add_new :
    (a i : ℕ) (sets : List ℕ)
    → count a sets ≤ 1
    → count a (add_new i sets) ≡ (if i == a then 1 else count a sets)
unfolding add_new
count-add_new a i sets h = ground (arith, total-append {0} (one_if_eq a) sets (i ∷ []))

count-add_range :
    (a k i : ℕ) (sets : List ℕ)
    → count a sets ≤ 1
    → count a (add_range k i sets) ≡ (if leb i a && ltb a (i + k) then 1 else count a sets)
unfolding add_range
count-add_range a zero i sets h = ground arith
count-add_range a (suc k) i sets h =
    let e = count-add_new a i sets h in
    ground (arith, e, count-add_range a k (i + 1) (add_new i sets) (ground arith))

-- One part, where the rest of the list is dealt with.
count-add_part :
    (a : ℕ) (later : List ℕ → Option (List ℕ)) (named : Bool) (range : Option (ℕ × ℕ))
    (sets result : List ℕ)
    → ((xs ys : List ℕ)
        → count a xs ≤ 1
        → later xs ≡ some ys
        → count a ys ≡ (if named then 1 else count a xs))
    → count a sets ≤ 1
    → add_part later range sets ≡ some result
    → count a result ≡ (if is_in a range || named then 1 else count a sets)
unfolding add_part
count-add_part a later named none sets result ih h e = ground arith
count-add_part a later named (some (low, high)) sets result ih h e =
    let k = count-add_range a (high + 1 - low) low sets h in
    let xs = add_range (high + 1 - low) low sets in
    ground (arith, k, ih xs result (ground (arith, k)) e)

count-add_parts :
    (a : ℕ) (parts : List (List ℕ)) (sets result : List ℕ)
    → count a sets ≤ 1
    → add_parts parts sets ≡ some result
    → count a result ≡ (if is_named a parts then 1 else count a sets)
unfolding add_parts
count-add_parts a [] sets result h e = ground arith
count-add_parts a (part ∷ rest) sets result h e =
    count-add_part a (add_parts rest) (is_named a rest) (interval_of part) sets result
      (count-add_parts a rest) h e

sign_bound :
    (negative : Bool) (s : Scanned) (n : ℕ) → clamped (with_sign negative s) ≡ some n → n < 2 ^ 63
unfolding with_sign clamped
sign_bound negative not_digits n e = ground arith
sign_bound negative too_large n e = ground arith
sign_bound true (number m) n e = ground arith
sign_bound false (number m) n e = ground arith

unsigned_bound :
    (negative : Bool) (s : List ℕ) (n : ℕ) → clamped (unsigned negative s) ≡ some n → n < 2 ^ 63
unfolding unsigned clamped
unsigned_bound negative [] n e = ground arith
unsigned_bound negative (c ∷ rest) n e = sign_bound negative (scan (c ∷ rest) 0) n e

-- No number that a range starts or ends with reaches 2^63, so the loop over the range does not wrap.
parse_uint_bound : (s : List ℕ) (n : ℕ) → parse_uint s ≡ some n → n < 2 ^ 63
unfolding parse_uint parse_int clamped
parse_uint_bound [] n e = ground arith
parse_uint_bound (c ∷ rest) n e = ground (
  arith,
  unsigned_bound false rest n,
  unsigned_bound true rest n,
  unsigned_bound false (c ∷ rest) n,
)

-- Every number that `parseUints` answers stands in the list once, and it answers just the numbers that a
-- part of the list names, as itself or in its range.
pub count-parse_uints :
    (a : ℕ) (text result : List ℕ)
    → parse_uints text ≡ some result
    → count a result ≡ (if is_named a (split 44 text) then 1 else 0)
unfolding parse_uints split interval_of
count-parse_uints a [] result e = ground arith
count-parse_uints a (c ∷ rest) result e =
    count-add_parts a (split 44 (c ∷ rest)) [] result (omega arith) e
