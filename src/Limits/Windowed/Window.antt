-- ===== src/Limits/Windowed/Window.antt =====
-- concurrencylimits/windowed.go: what a window tells of its samples.
use load_shedding.Prelude.{
  ℕ, ◌+◌, ◌<◌, ◌^◌, ◌≡◌, Bool, false, List, [], ◌∷◌, arith, if◌then◌else◌, ◌||◌, length, ltb, ◌≤◌,
  ◌*◌, ◌/◌,
}
use load_shedding.Prelude.Bag.{total}
use load_shedding.Prelude.Int.{pos, ◌≤ℤ◌}
use load_shedding.Prelude.Word.{incr_pos, add64_pos}
use load_shedding.Limits.Windowed.{SampleWindow, empty_window, add, tracked_rtt}

-- A sample that passes the threshold: its numbers are not negative.
pub record Sample : Type 0 where
  pub rtt : ℕ
  pub inflight : ℕ
  pub dropped : Bool

-- The window after these samples, newest first.
pub window_of : List Sample → SampleWindow
window_of [] = empty_window
window_of (s ∷ older) = add (pos s.rtt) (pos s.inflight) s.dropped (window_of older)

abbrev pub rtt_sum : List Sample → ℕ
rtt_sum = total (λ s. s.rtt)

abbrev pub any_drop : List Sample → Bool
any_drop [] = false
any_drop (s ∷ older) = any_drop older || s.dropped

-- Every sample took at least `m`; every sample saw at most `n` requests in flight.
abbrev pub AllSlower : ℕ → List Sample → Type 0
AllSlower m [] = Unit {0}
AllSlower m (s ∷ older) = (m ≤ s.rtt) × AllSlower m older

abbrev pub AllBelow : ℕ → List Sample → Type 0
AllBelow n [] = Unit {0}
AllBelow n (s ∷ older) = (s.inflight ≤ n) × AllBelow n older

AllSlower-mono : (m k : ℕ) (xs : List Sample) → m ≤ k → AllSlower k xs → AllSlower m xs
AllSlower-mono m k [] h a = tt
AllSlower-mono m k (s ∷ xs) h a = (omega (arith, a.0), AllSlower-mono m k xs h a.1)

AllBelow-mono : (n k : ℕ) (xs : List Sample) → n ≤ k → AllBelow n xs → AllBelow k xs
AllBelow-mono n k [] h a = tt
AllBelow-mono n k (s ∷ xs) h a = (omega (arith, a.0), AllBelow-mono n k xs h a.1)

rtt_sum-ge : (m : ℕ) (xs : List Sample) → AllSlower m xs → m * length xs ≤ rtt_sum xs
rtt_sum-ge m [] a = omega arith
rtt_sum-ge m (s ∷ xs) a = grind (arith, rtt_sum-ge m xs a.1)

-- What a window says of its samples, with `m` for the least time and `n` for the largest count.
pub record Summary (m n : ℕ) (samples : List Sample) (w : SampleWindow) : Type 0 where
  pub counted : w.count ≡ pos (length samples)
  pub summed : w.sum_rtt ≡ pos (rtt_sum samples)
  pub least : (w.min_rtt ≡ pos m) × AllSlower m samples
  pub largest : (w.max_in_flight ≡ pos n) × AllBelow n samples
  pub drops : w.did_drop ≡ any_drop samples

abbrev pub least_of : ℕ → List Sample → ℕ → ℕ
least_of rtt [] m = rtt
least_of rtt (_ ∷ _) m = if ltb rtt m then rtt else m

abbrev pub larger : ℕ → ℕ → ℕ
larger inflight n = if ltb n inflight then inflight else n

-- The least time and the largest count of a list of samples, newest first.
abbrev pub least_time : List Sample → ℕ
least_time [] = 0
least_time (s ∷ older) = least_of s.rtt older (least_time older)

abbrev pub most_in_flight : List Sample → ℕ
most_in_flight [] = 0
most_in_flight (s ∷ older) = larger s.inflight (most_in_flight older)

least_of-AllSlower :
    (rtt m : ℕ) (older : List Sample)
    → AllSlower m older
    → (least_of rtt older m ≤ rtt) × AllSlower (least_of rtt older m) older
least_of-AllSlower rtt m [] a = (omega arith, tt)
least_of-AllSlower rtt m (s ∷ older) a =
    (ground arith, AllSlower-mono (least_of rtt (s ∷ older) m) m (s ∷ older) (ground arith) a)

larger-AllBelow :
    (inflight n : ℕ) (older : List Sample)
    → AllBelow n older
    → (inflight ≤ larger inflight n) × AllBelow (larger inflight n) older
larger-AllBelow inflight n older a =
    (ground arith, AllBelow-mono n (larger inflight n) older (ground arith) a)

least_eq :
    (m : ℕ) (n : ℕ) (s : Sample) (older : List Sample) (w : SampleWindow)
    → Summary m n older w
    → (add (pos s.rtt) (pos s.inflight) s.dropped w).min_rtt ≡ pos (least_of s.rtt older m)
unfolding add
least_eq m n s [] w v = ground (arith, v.counted)
least_eq m n s (r ∷ older) w v = ground (arith, v.counted, v.least.0)

add-Summary :
    (m n : ℕ) (s : Sample) (older : List Sample) (w : SampleWindow)
    → length older + 1 < 2 ^ 63
    → rtt_sum older + s.rtt < 2 ^ 63
    → Summary m n older w
    → Summary
        (least_of s.rtt older m)
        (larger s.inflight n)
        (s ∷ older)
        (add (pos s.rtt) (pos s.inflight) s.dropped w)
unfolding add
add-Summary m n s older w hc hs v = record {
  counted = ground (arith, incr_pos (length older), v.counted);
  summed = ground (arith, add64_pos (rtt_sum older) s.rtt, v.summed);
  least = (least_eq m n s older w v, least_of-AllSlower s.rtt m older v.least.1);
  largest = (ground (arith, v.largest.0), larger-AllBelow s.inflight n older v.largest.1);
  drops = rw v.drops;
}

some_Summary :
    (samples : List Sample)
    → length samples < 2 ^ 63
    → rtt_sum samples < 2 ^ 63
    → Summary (least_time samples) (most_in_flight samples) samples (window_of samples)
unfolding window_of
some_Summary [] hc hs = ground arith
some_Summary (s ∷ older) hc hs =
    add-Summary (least_time older) (most_in_flight older) s older (window_of older) (omega arith)
      (omega arith) (some_Summary older (omega arith) (omega arith))

le-div : (m k x : ℕ) → 0 < k → m * k ≤ x → m ≤ x / k
le-div m k x p h = grind arith

le_tracked :
    (m : ℕ) (samples : List Sample) (w : SampleWindow)
    → 0 < length samples
    → w.count ≡ pos (length samples)
    → w.sum_rtt ≡ pos (rtt_sum samples)
    → m * length samples ≤ rtt_sum samples
    → pos m ≤ℤ tracked_rtt w
unfolding tracked_rtt
le_tracked m samples w p c e h = ground (arith, le-div m (length samples) (rtt_sum samples) p h)

-- A window of at least one sample tells their number, their sum, the least time and the largest count
-- in flight among them, which no sample undercuts or exceeds, and whether any was dropped; and their
-- average, which is what the delegate is fed, is not below the least time. Number and sum stay below
-- 2^63, so that no int64 wraps.
pub window_of-Summary :
    (s : Sample) (older : List Sample)
    → length (s ∷ older) < 2 ^ 63
    → rtt_sum (s ∷ older) < 2 ^ 63
    → Summary
        (least_time (s ∷ older))
        (most_in_flight (s ∷ older))
        (s ∷ older)
        (window_of (s ∷ older))
      × (pos (least_time (s ∷ older)) ≤ℤ tracked_rtt (window_of (s ∷ older)))
window_of-Summary s older hc hs =
    let v = some_Summary (s ∷ older) hc hs in
    (
      v,
      le_tracked (least_time (s ∷ older)) (s ∷ older) (window_of (s ∷ older)) (omega arith)
          v.counted v.summed (rtt_sum-ge (least_time (s ∷ older)) (s ∷ older) v.least.1),
    )
