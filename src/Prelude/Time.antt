-- ===== src/Prelude/Time.antt =====
-- Go's time package, as far as the program uses it. A `time.Time` is its distance in nanoseconds
-- from the zero time, and is not bounded; a `time.Duration` is an int64 of nanoseconds.
use load_shedding.Prelude.{Bool, if◌then◌else◌, ◌==◌, ◌&&◌}
use load_shedding.Prelude.Int.{ℤ, pos, pos_part, neg_part, ◌+ℤ◌, ◌-ℤ◌, ltb_ℤ}
use load_shedding.Prelude.Word.{min_int64, max_int64}

-- Equality and the orders that Go writes `==`, `<`, `<=`, `>=` and `>`.
abbrev pub eqb_ℤ : ℤ → ℤ → Bool
eqb_ℤ a b = (pos_part a == pos_part b) && (neg_part a == neg_part b)

abbrev pub Time : Type 0
Time = ℤ

abbrev pub Duration : Type 0
Duration = ℤ

abbrev pub zero_time : Time
zero_time = pos 0

abbrev pub is_zero : Time → Bool
is_zero t = eqb_ℤ t zero_time

-- `t.Add(d)`.
abbrev pub after : Time → Duration → Time
after t d = t +ℤ d

-- `t.Before(u)`.
abbrev pub before : Time → Time → Bool
before t u = ltb_ℤ t u

-- `t.Sub(u)`: a difference outside the range of a Duration is cut to its nearest end.
unfoldable pub sub : Time → Time → Duration
sub t u =
    if ltb_ℤ (t -ℤ u) min_int64
    then min_int64
    else if ltb_ℤ max_int64 (t -ℤ u)
    then max_int64
    else t -ℤ u
