-- ===== src/Simulate/Percentile.antt =====
-- simulate/simulate.go: the percentiles of a run are latencies of served requests, in order.
use load_shedding.Prelude.{
  ℕ, zero, suc, ◌-◌, ◌<◌, ◌≤◌, ◌^◌, ◌≡◌, refl, ◌⊎◌, inl, inr, true, Option, none, some, List, [],
  ◌∷◌, length, arith, get_elem?,
}
use load_shedding.Prelude.Int.{ℤ, pos, negsuc, ◌≤ℤ◌}
use load_shedding.Prelude.Time.{Duration}
use load_shedding.Prelude.Float.{Float64}
use load_shedding.Prelude.Float.Laws.{IsClamping, IsMonotone, IsScaling, IsExact, IsWeight}
use load_shedding.Queue.Cpu.Text.{Text}
use load_shedding.Simulate.Sorted.{
  Among, IsLeast, IsSorted, sort_latencies-IsSorted, length-sort_latencies, sort_latencies-Among,
}
use load_shedding.Simulate.{Counters, Result, sort_latencies, percentile, at, fill, report}

-- An index in range finds a latency.
abbrev Found : List Duration → Option Duration → Type 0
Found xs none = ⊥
Found xs (some d) = Among d xs

-- One of the latencies, or 0 where there are none.
abbrev pub IsPercentile : List Duration → Duration → Type 0
IsPercentile latencies d = Among d latencies ⊎ (latencies ≡ []) × (d ≡ pos 0)

-- The run answers a result, whose percentiles are in order and each of them one of the latencies.
abbrev pub Reported : List Duration → Option Result → Type 0
Reported latencies none = ⊥
Reported latencies (some r) =
    (r.p50 ≤ℤ r.p95)
    × (r.p95 ≤ℤ r.p99)
    × IsPercentile latencies r.p50
    × IsPercentile latencies r.p95
    × IsPercentile latencies r.p99

abbrev pub InOrder : Option Duration → Option Duration → Type 0
InOrder (some c) (some d) = c ≤ℤ d
InOrder _ _ = ⊥

abbrev Answers : List Duration → Option Duration → Type 0
Answers latencies none = ⊥
Answers latencies (some d) = IsPercentile latencies d

Found-Answers :
    (latencies sorted : List Duration) (o : Option Duration)
    → ((a : Duration) → Among a sorted → Among a latencies)
    → Found sorted o
    → Answers latencies o
Found-Answers latencies sorted none h k = k
Found-Answers latencies sorted (some d) h k = inl (h d k)

fill-Reported :
    (name : Text) (c : Counters) (wall : Duration) (latencies : List Duration)
    (o1 o2 o3 : Option Duration)
    → InOrder o1 o2
    → InOrder o2 o3
    → Answers latencies o1
    → Answers latencies o2
    → Answers latencies o3
    → Reported latencies (fill name c wall o1 o2 o3)
fill-Reported name c wall latencies none o2 o3 h k a b d = elim a [ ]
fill-Reported name c wall latencies (some x) none o3 h k a b d = elim b [ ]
fill-Reported name c wall latencies (some x) (some y) none h k a b d = elim d [ ]
fill-Reported name c wall latencies (some x) (some y) (some z) h k a b d = (h, k, a, b, d)

Found-cons :
    (x : Duration) (xs : List Duration) (o : Option Duration) → Found xs o → Found (x ∷ xs) o
Found-cons x xs none h = h
Found-cons x xs (some d) h = inr h

get_elem?-Found : (xs : List Duration) (i : ℕ) → i < length xs → Found xs (get_elem? xs i)
get_elem?-Found [] i h = absurd (omega arith)
get_elem?-Found (x ∷ xs) zero h = inl refl
get_elem?-Found (x ∷ xs) (suc i) h = Found-cons x xs _ (get_elem?-Found xs i (omega arith))

IsLeast-Found :
    (d : Duration) (xs : List Duration) (o : Option Duration)
    → IsLeast d xs
    → Found xs o
    → InOrder (some d) o
IsLeast-Found d xs none l h = h
IsLeast-Found d [] (some e) l h = elim h [ ]
IsLeast-Found d (x ∷ xs) (some e) l (inl k) = ground (arith, k, l.0)
IsLeast-Found d (x ∷ xs) (some e) l (inr k) = IsLeast-Found d xs (some e) l.1 k

get_elem?-InOrder :
    (xs : List Duration) (i j : ℕ)
    → IsSorted xs
    → i ≤ j
    → j < length xs
    → InOrder (get_elem? xs i) (get_elem? xs j)
get_elem?-InOrder [] i j s h k = absurd (omega arith)
get_elem?-InOrder (x ∷ xs) zero zero s h k = omega arith
get_elem?-InOrder (x ∷ xs) zero (suc j) s h k =
    IsLeast-Found x xs (get_elem? xs j) s.0 (get_elem?-Found xs j (omega arith))
get_elem?-InOrder (x ∷ xs) (suc i) zero s h k = absurd (omega arith)
get_elem?-InOrder (x ∷ xs) (suc i) (suc j) s h k =
    get_elem?-InOrder xs i j s.1 (omega arith) (omega arith)

module _ (fl : Float64) (laws : IsClamping fl) (monotone : IsMonotone fl)
    (scaling : IsScaling fl) where
  -- The index of a percentile is in range, and grows with the weight.
  index_between :
      (n : ℕ) (p : fl.F)
      → n ≤ 2 ^ 53
      → IsWeight fl p
      → (pos 0 ≤ℤ fl.to_int (fl.mul (fl.of_int (pos n)) p))
        × (fl.to_int (fl.mul (fl.of_int (pos n)) p) ≤ℤ pos n)
  index_between n p h w =
      let e : IsExact (pos n) = (omega arith, omega arith) in
      laws.to_int_between (pos 0) (pos n) _ (omega arith, omega arith) e
        (monotone.mul_nonneg (pos n) p e w) (scaling.mul_le (pos n) p e w)

  at-InOrder :
      (xs : List Duration) (i j : ℤ)
      → IsSorted xs
      → pos 0 ≤ℤ i
      → i ≤ℤ j
      → j ≤ℤ pos (length xs - 1)
      → 0 < length xs
      → InOrder (at xs i) (at xs j)
  at-InOrder xs (negsuc i) j s g h k l = absurd (omega arith)
  at-InOrder xs (pos i) (negsuc j) s g h k l = absurd (omega arith)
  at-InOrder xs (pos i) (pos j) s g h k l = get_elem?-InOrder xs i j s (omega arith) (omega arith)

  at-Found :
      (xs : List Duration) (i : ℤ)
      → pos 0 ≤ℤ i
      → i ≤ℤ pos (length xs - 1)
      → 0 < length xs
      → Found xs (at xs i)
  at-Found xs (negsuc i) g h l = absurd (omega arith)
  at-Found xs (pos i) g h l = get_elem?-Found xs i (omega arith)

  percentile-InOrder :
      (xs : List Duration) (p q : fl.F)
      → length xs ≤ 2 ^ 53
      → IsSorted xs
      → IsWeight fl p
      → IsWeight fl q
      → fl.le p q ≡ true
      → InOrder (percentile fl xs p) (percentile fl xs q)
  unfolding percentile
  percentile-InOrder [] p q h s v w k = omega arith
  percentile-InOrder (x ∷ xs) p q h s v w k =
      let n = length (x ∷ xs) - 1 in
      let e : IsExact (pos n) = (omega arith, omega arith) in
      let (low, high) = index_between n p (omega arith) v in
      let (low', high') = index_between n q (omega arith) w in
      let grows =
        scaling.to_int_mono (pos n) _ _ e (monotone.mul_nonneg (pos n) p e v)
          (scaling.mul_weight_mono (pos n) p q e v w k) (scaling.mul_le (pos n) q e w) in
      at-InOrder (x ∷ xs) _ _ s low grows high' (omega arith)

  percentile-Answers :
      (latencies sorted : List Duration) (p : fl.F)
      → length sorted ≡ length latencies
      → ((a : Duration) → Among a sorted → Among a latencies)
      → length sorted ≤ 2 ^ 53
      → IsWeight fl p
      → Answers latencies (percentile fl sorted p)
  unfolding percentile
  percentile-Answers [] [] p l h k w = inr (refl, refl)
  percentile-Answers (y ∷ ys) [] p l h k w = absurd (omega (arith, l))
  percentile-Answers latencies (x ∷ xs) p l h k w =
      let n = length (x ∷ xs) - 1 in
      let (low, high) = index_between n p (omega arith) w in
      Found-Answers latencies (x ∷ xs) _ h (at-Found (x ∷ xs) _ low high (omega arith))

  -- The end of `Run` does not panic, and its percentiles are in order: P50 is at most P95, and P95 at
  -- most P99. Each is the latency of a request that was served, or 0 where there is none. There are at
  -- most 2^53 such requests.
  pub report-Reported :
      (name : Text) (wall : Duration) (c : Counters)
      → length c.latencies ≤ 2 ^ 53
      → Reported c.latencies (report fl name wall c)
  unfolding report
  report-Reported name wall c h =
      let sorted = sort_latencies c.latencies in
      let same = length-sort_latencies c.latencies in
      let ordered = sort_latencies-IsSorted c.latencies in
      let among : (a : Duration) → Among a sorted → Among a c.latencies =
        λ a. sort_latencies-Among a c.latencies in
      let small : length sorted ≤ 2 ^ 53 = omega (arith, same) in
      fill-Reported name c wall c.latencies _ _ _
        (percentile-InOrder sorted _ _ small ordered scaling.half monotone.most scaling.half_most)
        (percentile-InOrder sorted _ _ small ordered monotone.most scaling.almost
          scaling.most_almost)
        (percentile-Answers c.latencies sorted _ same among small scaling.half)
        (percentile-Answers c.latencies sorted _ same among small monotone.most)
        (percentile-Answers c.latencies sorted _ same among small scaling.almost)
