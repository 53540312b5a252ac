-- ===== src/Limits/Limiter/Slots.antt =====
-- concurrencylimits/limiter.go: the counter is exact, and the limit is kept under concurrency.
use load_shedding.Prelude.{
  ◌+◌, ◌<◌, ◌^◌, ◌≡◌, refl, none, some, List, ◌∷◌, arith, length, Bool-cases, inl, inr,
}
use load_shedding.Prelude.Bag.{Pick, Pick-length, Swap, Swap-length}
use load_shedding.Prelude.Int.{ℤ, pos, ◌≤ℤ◌}
use load_shedding.Prelude.Word.{IsInt64, decr-incr, decr, incr_pos, decr_pos}
use load_shedding.Prelude.Time.{Time}
use load_shedding.Limits.Limit.{Limit, Report}
use load_shedding.Limits.Limit.Capped.{Capped, always_capped}
use load_shedding.Limits.Limiter.{
  SimpleLimiter, Listener, new_simple_limiter, acquire_add, acquire_test, finish_swap, release,
  finish_sample, finish, acquire, samples,
}
use load_shedding.Limits.Limiter.System.{
  Phase, testing, refused, live, releasing, System, start, Step, add_step, admit_step, refuse_step,
  reject_step, swap_step, release_step, sample_step, Reach, init, next,
}
use load_shedding.Limits.Limiter.Ranks.{
  AllWithin, IsRanked, Pick-AllWithin, Pick-IsRanked, Swap-AllWithin, Swap-IsRanked, Within,
  admitted, admitted-le, current_of,
}

module _ {L : Type 0} (algorithm : Limit L) (bound : ℤ) (cap : Capped algorithm bound) where
  record Inv (s : System L) : Type 0 where
    few : length s.inside < 2 ^ 63
    counted : s.limiter.inflight ≡ pos (length s.inside)
    ranked : IsRanked s.inside
    within : AllWithin bound s.inside
    kept : cap.IsKept s.limiter.limit

  add-Inv :
      (s : System L)
      → length s.inside + 1 < 2 ^ 63
      → Inv s
      → Inv (record s {
        limiter = (acquire_add s.limiter).0;
        inside = testing (acquire_add s.limiter).1 ∷ s.inside;
      })
  unfolding acquire_add
  add-Inv s h v = ground (arith, incr_pos (length s.inside))

  admit-Within :
      (start : Time) (current : ℤ) (l : SimpleLimiter L) (listener : Listener)
      → cap.IsKept l.limit
      → acquire_test algorithm start current l ≡ some listener
      → (current ≡ listener.inflight) × (listener.inflight ≤ℤ bound)
  unfolding acquire_test
  admit-Within start current l listener k e = ground (arith, cap.limit_le l.limit k)

  -- A request moves on inside.
  Swap-Inv :
      (s : System L) (x y : Phase) (rest : List Phase)
      → current_of x ≡ current_of y
      → (Within bound x → Within bound y)
      → Swap x y s.inside rest
      → Inv s
      → Inv (record s { inside = rest })
  Swap-Inv s x y rest same low p v = record {
    few = omega (arith, Swap-length p, v.few);
    counted = ground (arith, Swap-length p, v.counted);
    ranked = Swap-IsRanked same p v.ranked;
    within = Swap-AllWithin bound low p v.within;
    kept = v.kept;
  }

  leave-Inv :
      (s : System L) (l : SimpleLimiter L) (x : Phase) (rest : List Phase)
      (sampling : List (Listener × Report))
      → l.inflight ≡ decr s.limiter.inflight
      → cap.IsKept l.limit
      → Pick x s.inside rest
      → Inv s
      → Inv (record { limiter = l; inside = rest; sampling = sampling })
  leave-Inv s l x rest sampling e k p v = record {
    few = omega (arith, Pick-length p, v.few);
    counted = ground (arith, e, Pick-length p, v.counted, v.few, decr_pos (length s.inside));
    ranked = Pick-IsRanked p v.ranked;
    within = Pick-AllWithin bound p v.within;
    kept = k;
  }

  sample-Inv :
      (s : System L) (now : Time) (listener : Listener) (report : Report)
      (rest : List (Listener × Report))
      → Inv s
      → Inv (record s {
        limiter = finish_sample algorithm now listener report s.limiter;
        sampling = rest;
      })
  unfolding finish_sample
  sample-Inv s now listener report rest v = elim (Bool-cases (samples report)) [
    | inl e ↦ rw e (record {
      few = v.few;
      counted = v.counted;
      ranked = v.ranked;
      within = v.within;
      kept = cap.keeps _ _ _ s.limiter.limit v.kept;
    })
    | inr e ↦ rw e (record {
      few = v.few;
      counted = v.counted;
      ranked = v.ranked;
      within = v.within;
      kept = v.kept;
    })
  ]

  Step-Inv : {s t : System L} → Step algorithm s t → Inv s → Inv t
  unfolding finish_swap release finish_sample
  Step-Inv {s} (add_step h) v = add-Inv s h v
  Step-Inv {s} (admit_step start current listener {rest} e p) v =
      let (same, low) = admit-Within start current s.limiter listener v.kept e in
      Swap-Inv s (testing current) (live listener) rest same (λ _. low) p v
  Step-Inv {s} (refuse_step start current {rest} e p) v =
      Swap-Inv s (testing current) (refused current) rest refl (λ w. w) p v
  Step-Inv {s} (reject_step current {rest} p) v =
      leave-Inv s _ (refused current) rest s.sampling refl v.kept p v
  Step-Inv {s} (swap_step listener report {rest} e p) v =
      Swap-Inv s (live listener) (releasing (finish_swap listener).0 report) rest (ground arith)
        (λ w. ground arith) p v
  Step-Inv {s} (release_step listener report {rest} p) v =
      leave-Inv s _ (releasing listener report) rest _ refl v.kept p v
  Step-Inv {s} (sample_step now listener report p) v = sample-Inv s now listener report _ v

  Reach-Inv : {first : L} {s : System L} → cap.IsKept first → Reach algorithm first s → Inv s
  unfolding new_simple_limiter
  Reach-Inv k init = record {
    few = omega arith;
    counted = refl;
    ranked = tt;
    within = tt;
    kept = k;
  }
  Reach-Inv k (next r st) = Step-Inv st (Reach-Inv k r)

  -- The limit holds under concurrency, at an algorithm whose invariant keeps it at most `bound`.
  pub capped-admitted :
      {first : L} {s : System L}
      → pos 0 ≤ℤ bound
      → cap.IsKept first
      → Reach algorithm first s
      → (pos (admitted s.inside) ≤ℤ bound) × (s.limiter.inflight ≡ pos (length s.inside))
  capped-admitted {s = s} h k r =
      let v = Reach-Inv k r in (admitted-le bound s.inside h v.ranked v.within, v.counted)

-- The limit holds under concurrency: if the algorithm never answers more than `bound`, which is not
-- negative, then in every state that a new limiter reaches at most `bound` requests have been admitted
-- and have not given back their slot, and the counter `Inflight` is the exact number of requests
-- inside, those before their test included.
Reach-admitted :
    {L : Type 0} (algorithm : Limit L) (bound : ℤ)
    → ((l : L) → algorithm.limit l ≤ℤ bound)
    → {first : L} {s : System L} → pos 0 ≤ℤ bound
    → Reach algorithm first s
    → (pos (admitted s.inside) ≤ℤ bound) × (s.limiter.inflight ≡ pos (length s.inside))
Reach-admitted algorithm bound capped h r =
    capped-admitted algorithm bound (always_capped algorithm bound capped) h tt r

-- Only the first call on a listener counts: once `finish` has run on it, a further call of any kind
-- changes neither the limiter nor the listener.
finish_again :
    {L : Type 0} (algorithm : Limit L) (t u : Time) (s : Listener) (r q : Report)
    (l m : SimpleLimiter L)
    → let s' = (finish algorithm t s r l).1 in finish algorithm u s' q m ≡ (m, s')
unfolding finish
finish_again algorithm t u s r q l m = ground arith

-- A request that is admitted and finished leaves the counter as it was, however it ends, whatever the
-- algorithm does with the sample; and a rejected one does so at once.
pub inflight_restored :
    {L : Type 0} (algorithm : Limit L) (t u : Time) (r : Report) (l : SimpleLimiter L)
    → IsInt64 l.inflight
    → ((acquire algorithm t l).1 ≡ none → (acquire algorithm t l).0 ≡ l)
      × ((s : Listener)
          → (acquire algorithm t l).1 ≡ some s
          → (finish algorithm u s r (acquire algorithm t l).0).0.inflight ≡ l.inflight)
unfolding acquire finish
inflight_restored algorithm t u r l h =
    (λ e. ground (arith, decr-incr l.inflight h), λ s e. ground (arith, decr-incr l.inflight h))
