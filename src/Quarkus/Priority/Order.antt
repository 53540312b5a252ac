-- ===== src/Quarkus/Priority/Order.antt =====
-- quarkus/priority.go: the order in which requests are shed.
use load_shedding.Prelude.{
  ℕ, ◌+◌, ◌<◌, ◌≤◌, ◌^◌, ◌≡◌, refl, true, false, arith, ◌%◌, ◌*◌, ◌-◌, ◌==◌, ltb, dec_lt, ◌⊎◌, ◌&&◌,
  if◌then◌else◌,
}
use load_shedding.Prelude.Int.{ℤ, pos, negsuc, pos_part, ltb_ℤ, ◌≤ℤ◌}
use load_shedding.Prelude.Word.{IsInt64, sub64, min_int64, add64_pos, mul64_pos, neg64_negsuc}
use load_shedding.Prelude.Float.{Float64}
use load_shedding.Prelude.Float.Laws.{IsOrdered}
use load_shedding.Quarkus.Priority.{
  cohort_baseline, normalize_cohort, score, min_cohort, max_cohort, priority_degraded,
  PriorityLoadShedding, exceeds, threshold_at, refresh, shed_load, priority_of, cohort_of,
}

normalize_negsuc : (n : ℕ) → n + 1 < 2 ^ 63 → normalize_cohort (negsuc n) ≡ pos ((n + 1) % 128 + 1)
unfolding normalize_cohort
normalize_negsuc n h = rw (neg64_negsuc n h) (ground (arith, add64_pos ((n + 1) % 128) 1))

normalize_pos :
    (n : ℕ)
    → normalize_cohort (pos n)
      ≡ (if n == 0 then pos 1 else if ltb 128 n then pos (n % 128 + 1) else pos n)
unfolding normalize_cohort
normalize_pos n = ground (arith, add64_pos (n % 128) 1)

normalize_min : normalize_cohort min_int64 ≡ pos 128
unfolding normalize_cohort
normalize_min = refl

least_bounds :
    (n : ℕ)
    → n ≡ 2 ^ 63 - 1
    → (min_cohort ≤ℤ normalize_cohort (negsuc n)) × (normalize_cohort (negsuc n) ≤ℤ max_cohort)
least_bounds n e = rw (e, normalize_min) (omega arith)

-- Every int becomes a cohort from 1 to 128, also the least one, whose negation overflows.
normalize_cohort_bounds :
    (cohort : ℤ)
    → IsInt64 cohort
    → (min_cohort ≤ℤ normalize_cohort cohort) × (normalize_cohort cohort ≤ℤ max_cohort)
normalize_cohort_bounds (pos n) h = rw (normalize_pos n) (ground arith)
normalize_cohort_bounds (negsuc n) h = elim (dec_lt (n + 1) (2 ^ 63)) [
  | yes small ↦ rw (normalize_negsuc n small) (ground arith)
  | no least ↦ ground (arith, least_bounds n (omega arith))
]

-- The score as a plain sum.
score_pos :
    (k m : ℕ) (c : ℤ)
    → k ≤ 4
    → m ≤ 128
    → normalize_cohort c ≡ pos m
    → score (pos k) c ≡ pos (k * 128 + m)
unfolding score cohort_baseline
score_pos k m c h hm e = rw (e, mul64_pos k 128 (omega arith), add64_pos (k * 128) m (omega arith))

cohort_number : (c : ℤ) → IsInt64 c → (m : ℕ) × (normalize_cohort c ≡ pos m) × (1 ≤ m) × (m ≤ 128)
cohort_number c h =
    let b = normalize_cohort_bounds c h in
    (pos_part (normalize_cohort c), ground (arith, b.0), ground (arith, b.0), ground (arith, b.1))

-- Scores order the requests of the five named priorities by priority first and by normalised cohort
-- second: a request of a less important priority scores more whatever the cohorts, and within a
-- priority the larger cohort scores more. Every score is from 1 to 640.
score_lexicographic :
    (p q : ℕ) (c d : ℤ)
    → IsInt64 c
    → IsInt64 d
    → pos p ≤ℤ priority_degraded
    → pos q ≤ℤ priority_degraded
    → (ltb_ℤ (score (pos p) c) (score (pos q) d)
        ≡ (if ltb p q then true else p == q && ltb_ℤ (normalize_cohort c) (normalize_cohort d)))
      × (pos 1 ≤ℤ score (pos p) c)
      × (score (pos p) c ≤ℤ pos 640)
score_lexicographic p q c d hc hd hp hq =
    let (m, em, low_m, high_m) = cohort_number c hc in
    let (n, en, low_n, high_n) = cohort_number d hd in
    let sc = score_pos p m c (omega arith) high_m em in
    let sd = score_pos q n d (omega arith) high_n en in
    rw (sc, sd, em, en) (ground arith, omega arith, omega arith)

module _ (fl : Float64) {R : Type 0} where
  abbrev pub score_of : PriorityLoadShedding fl R → R → ℤ
  score_of p request = score (priority_of p.prioritizers request) (cohort_of p.classifiers request)

  exceeds_mono :
      (threshold : fl.F) (p q : PriorityLoadShedding fl R) (r s : R)
      → IsOrdered fl
      → score_of p r ≤ℤ score_of q s
      → exceeds fl threshold p r ≡ true
      → exceeds fl threshold q s ≡ true
  unfolding exceeds
  exceeds_mono threshold p q r s laws h e = ground (
    arith,
    laws.of_int_mono (score_of p r) (score_of q s) h,
    laws.lt-le_trans threshold (fl.of_int (score_of p r)) (fl.of_int (score_of q s)),
  )

  -- Shedding respects the scores: if a request is shed, then each later request of the same or a larger
  -- score is shed too, as long as the threshold is not computed anew, that is at most 1000 ms after it
  -- last was, whatever the CPU load is by then.
  shed_load_mono :
      (p : PriorityLoadShedding fl R) (now later : ℤ) (load load' : fl.F) (r s : R)
      → IsOrdered fl
      → (shed_load fl now load r p).1 ≡ true
      → ltb_ℤ (pos 1000) (sub64 later (shed_load fl now load r p).0.last_threshold_time) ≡ false
      → score_of p r ≤ℤ score_of p s
      → (shed_load fl later load' s (shed_load fl now load r p).0).1 ≡ true
  unfolding shed_load refresh
  shed_load_mono p now later load load' r s laws e h k = ground (
    arith,
    exceeds_mono p.last_threshold p p r s laws k,
    exceeds_mono (threshold_at fl p.max load) p p r s laws k,
  )

  -- Shedding respects importance: if a request of a named priority is shed, then each later request is
  -- shed too that has a less important named priority, whatever the cohorts, or the same priority and a
  -- normalised cohort that is not smaller. The CPU load may have changed by then, as long as the threshold
  -- is not computed anew, that is at most 1000 ms after it last was. The cohorts are ints.
  pub less_important_shed :
      (p : PriorityLoadShedding fl R) (now later : ℤ) (load load' : fl.F) (r s : R) (a b : ℕ)
      → IsOrdered fl
      → priority_of p.prioritizers r ≡ pos a
      → priority_of p.prioritizers s ≡ pos b
      → pos b ≤ℤ priority_degraded
      → IsInt64 (cohort_of p.classifiers r)
      → IsInt64 (cohort_of p.classifiers s)
      → (a < b)
        ⊎ ((a ≡ b)
            × (normalize_cohort (cohort_of p.classifiers r)
                ≤ℤ normalize_cohort (cohort_of p.classifiers s)))
      → (shed_load fl now load r p).1 ≡ true
      → ltb_ℤ (pos 1000) (sub64 later (shed_load fl now load r p).0.last_threshold_time) ≡ false
      → (shed_load fl later load' s (shed_load fl now load r p).0).1 ≡ true
  less_important_shed p now later load load' r s a b laws ea eb named c d h e k =
      let named' : pos a ≤ℤ priority_degraded = ground (arith, h, named) in
      let order =
        (score_lexicographic b a (cohort_of p.classifiers s) (cohort_of p.classifiers r) d c named
          named').0 in
      shed_load_mono p now later load load' r s laws e k (rw (ea, eb) (ground (arith, order, h)))
