-- ===== src/Limits/Limiter/System.antt =====
-- concurrencylimits/limiter.go: a SimpleLimiter under concurrent calls, interleaved in any order.
use load_shedding.Prelude.{◌+◌, ◌<◌, ◌^◌, ◌≡◌, true, none, some, List, [], ◌∷◌, length}
use load_shedding.Prelude.Bag.{Pick, Swap}
use load_shedding.Prelude.Int.{ℤ}
use load_shedding.Prelude.Time.{Time}
use load_shedding.Limits.Limit.{Limit, Report}
use load_shedding.Limits.Limiter.{
  SimpleLimiter, Listener, new_simple_limiter, acquire_add, acquire_test, finish_swap, release,
  finish_sample,
}

-- A request between its `Add(1)` and its `Add(-1)`: before the test against the limit, past it and
-- rejected, admitted, or past the swap of `finish`.
pub data Phase : Type 0 where
  testing : ℤ → Phase
  refused : ℤ → Phase
  live : Listener → Phase
  releasing : Listener → Report → Phase

pub record System (L : Type 0) : Type 0 where
  pub limiter : SimpleLimiter L
  -- The requests inside, the one that added last first.
  pub inside : List Phase
  -- The listeners that have given back their slot and not fed their sample.
  pub sampling : List (Listener × Report)

module _ {L : Type 0} where
  abbrev pub start : L → System L
  start limit = record { limiter = new_simple_limiter limit; inside = []; sampling = [] }

  module _ (algorithm : Limit L) where
    -- One atomic action of one request. The first has a premise: fewer than 2^63 requests are inside.
    pub data Step (s : System L) : System L → Type 0 where
      add_step :
          length s.inside + 1 < 2 ^ 63
          → Step s (record s {
            limiter = (acquire_add s.limiter).0;
            inside = testing (acquire_add s.limiter).1 ∷ s.inside;
          })
      admit_step :
          (start : Time) (current : ℤ) (listener : Listener) {rest : List Phase}
          → acquire_test algorithm start current s.limiter ≡ some listener
          → Swap (testing current) (live listener) s.inside rest
          → Step s (record s { inside = rest })
      refuse_step :
          (start : Time) (current : ℤ) {rest : List Phase}
          → acquire_test algorithm start current s.limiter ≡ none
          → Swap (testing current) (refused current) s.inside rest
          → Step s (record s { inside = rest })
      reject_step :
          (current : ℤ) {rest : List Phase}
          → Pick (refused current) s.inside rest
          → Step s (record s { limiter = release s.limiter; inside = rest })
      swap_step :
          (listener : Listener) (report : Report) {rest : List Phase}
          → (finish_swap listener).1 ≡ true
          → Swap (live listener) (releasing (finish_swap listener).0 report) s.inside rest
          → Step s (record s { inside = rest })
      release_step :
          (listener : Listener) (report : Report) {rest : List Phase}
          → Pick (releasing listener report) s.inside rest
          → Step s (record s {
            limiter = release s.limiter;
            inside = rest;
            sampling = (listener, report) ∷ s.sampling;
          })
      sample_step :
          (now : Time) (listener : Listener) (report : Report) {rest : List (Listener × Report)}
          → Pick (listener, report) s.sampling rest
          → Step s (record s {
            limiter = finish_sample algorithm now listener report s.limiter;
            sampling = rest;
          })

    pub data Reach (first : L) : System L → Type 0 where
      init : Reach first (start first)
      next : {s t : System L} → Reach first s → Step s t → Reach first t
