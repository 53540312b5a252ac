-- ===== src/Limits/Limiter/Ranks.antt =====
-- concurrencylimits/limiter.go: a request inside has counted itself and those that were there before.
use load_shedding.Prelude.{ℕ, ◌+◌, ◌≤◌, ◌≡◌, List, [], ◌∷◌, arith, length}
use load_shedding.Prelude.Bag.{Pick, Pick-length, Swap, Swap-length, total}
use load_shedding.Prelude.Int.{ℤ, pos, ◌≤ℤ◌}
use load_shedding.Limits.Limiter.System.{Phase, testing, refused, live, releasing}

-- The value of the counter that a request read when it came in.
abbrev pub current_of : Phase → ℤ
current_of (testing current) = current
current_of (refused current) = current
current_of (live listener) = listener.inflight
current_of (releasing listener _) = listener.inflight

abbrev pub is_admitted : Phase → ℕ
is_admitted (testing _) = 0
is_admitted (refused _) = 0
is_admitted _ = 1

-- The requests that have a listener and have not given back their slot.
abbrev pub admitted : List Phase → ℕ
admitted = total is_admitted

-- A request counted itself and every older one that is still inside.
abbrev pub IsRanked : List Phase → Type 0
IsRanked [] = Unit {0}
IsRanked (x ∷ older) = (pos (length older + 1) ≤ℤ current_of x) × IsRanked older

abbrev pub Within : ℤ → Phase → Type 0
Within bound (testing _) = Unit {0}
Within bound (refused _) = Unit {0}
Within bound x = current_of x ≤ℤ bound

abbrev pub AllWithin : ℤ → List Phase → Type 0
AllWithin bound [] = Unit {0}
AllWithin bound (x ∷ older) = Within bound x × AllWithin bound older

pub Pick-IsRanked :
    {x : Phase} {xs rest : List Phase} → Pick x xs rest → IsRanked xs → IsRanked rest
Pick-IsRanked Pick.here r = r.1
Pick-IsRanked (Pick.there p) r = (omega (arith, Pick-length p, r.0), Pick-IsRanked p r.1)

pub Pick-AllWithin :
    (bound : ℤ) {x : Phase} {xs rest : List Phase}
    → Pick x xs rest
    → AllWithin bound xs
    → AllWithin bound rest
Pick-AllWithin bound Pick.here w = w.1
Pick-AllWithin bound (Pick.there p) w = (w.0, Pick-AllWithin bound p w.1)

pub Swap-IsRanked :
    {x y : Phase} {xs ys : List Phase}
    → current_of x ≡ current_of y
    → Swap x y xs ys
    → IsRanked xs
    → IsRanked ys
Swap-IsRanked e Swap.here r = (ground arith, r.1)
Swap-IsRanked e (Swap.there p) r = (omega (arith, Swap-length p, r.0), Swap-IsRanked e p r.1)

pub Swap-AllWithin :
    (bound : ℤ) {x y : Phase} {xs ys : List Phase}
    → (Within bound x → Within bound y)
    → Swap x y xs ys
    → AllWithin bound xs
    → AllWithin bound ys
Swap-AllWithin bound h Swap.here w = (h w.0, w.1)
Swap-AllWithin bound h (Swap.there p) w = (w.0, Swap-AllWithin bound h p w.1)

admitted-le-length : (xs : List Phase) → admitted xs ≤ length xs
admitted-le-length [] = omega arith
admitted-le-length (testing c ∷ xs) = omega (arith, admitted-le-length xs)
admitted-le-length (refused c ∷ xs) = omega (arith, admitted-le-length xs)
admitted-le-length (live l ∷ xs) = omega (arith, admitted-le-length xs)
admitted-le-length (releasing l r ∷ xs) = omega (arith, admitted-le-length xs)

-- The youngest admitted request has counted all the others.
pub admitted-le :
    (bound : ℤ) (xs : List Phase)
    → pos 0 ≤ℤ bound
    → IsRanked xs
    → AllWithin bound xs
    → pos (admitted xs) ≤ℤ bound
admitted-le bound [] h r w = h
admitted-le bound (testing c ∷ xs) h r w = omega (arith, admitted-le bound xs h r.1 w.1)
admitted-le bound (refused c ∷ xs) h r w = omega (arith, admitted-le bound xs h r.1 w.1)
admitted-le bound (live l ∷ xs) h r w = omega (arith, admitted-le-length xs, r.0, w.0)
admitted-le bound (releasing l p ∷ xs) h r w = omega (arith, admitted-le-length xs, r.0, w.0)
