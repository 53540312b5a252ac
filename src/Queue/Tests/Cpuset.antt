-- ===== src/Queue/Tests/Cpuset.antt =====
-- The list "0-2,1,4" of CPUs.
use load_shedding.Prelude.{ℕ, ◌≡◌, refl, some, List, [], ◌∷◌, if◌then◌else◌}
use load_shedding.Prelude.Bag.{count}
use load_shedding.Queue.Cpu.{
  parse_uints, split, add_parts, interval_of, cut, parse_uint, parse_int, scan, add_range, add_new,
}
use load_shedding.Queue.Cpu.Cpuset.{count-parse_uints, is_named}

abbrev text : List ℕ
text = 48 ∷ 45 ∷ 50 ∷ 44 ∷ 49 ∷ 44 ∷ 52 ∷ []

parsed : parse_uints text ≡ some (0 ∷ 1 ∷ 2 ∷ 4 ∷ [])
unfolding parse_uints split add_parts interval_of cut parse_uint parse_int scan add_range add_new
parsed = refl

count-parse_uints_example :
    count 1 (0 ∷ 1 ∷ 2 ∷ 4 ∷ []) ≡ (if is_named 1 (split 44 text) then 1 else 0)
count-parse_uints_example = count-parse_uints 1 text (0 ∷ 1 ∷ 2 ∷ 4 ∷ []) parsed
