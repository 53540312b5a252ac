-- ===== src/Limits/Limit/Capped.antt =====
-- concurrencylimits/: what a limiter relies on of a limit algorithm, and the constant algorithm.
use load_shedding.Prelude.{Bool}
use load_shedding.Prelude.Int.{ℤ, ◌≤ℤ◌}
use load_shedding.Prelude.Time.{Duration}
use load_shedding.Limits.Limit.{Limit, fixed_limit}

-- An invariant of the algorithm's state, which keeps the limit at most `bound`.
pub record Capped {L : Type 0} (algorithm : Limit L) (bound : ℤ) : Type 1 where
  pub IsKept : L → Type 0
  pub limit_le : (l : L) → IsKept l → algorithm.limit l ≤ℤ bound
  pub keeps :
      (rtt : Duration) (inflight : ℤ) (did_drop : Bool) (l : L)
      → IsKept l
      → IsKept (algorithm.on_sample rtt inflight did_drop l)

-- FixedLimit at a value up to the bound.
abbrev pub fixed_capped : (bound : ℤ) → Capped fixed_limit bound
fixed_capped bound = record {
  IsKept = λ n. n ≤ℤ bound;
  limit_le = λ l h. h;
  keeps = λ rtt inflight did_drop l h. h;
}

-- An algorithm whose answers are at most `bound` in every state.
abbrev pub always_capped :
    {L : Type 0} (algorithm : Limit L) (bound : ℤ)
    → ((l : L) → algorithm.limit l ≤ℤ bound)
    → Capped algorithm bound
always_capped algorithm bound h = record {
  IsKept = λ l. Unit {0};
  limit_le = λ l k. h l;
  keeps = λ rtt inflight did_drop l k. tt;
}
