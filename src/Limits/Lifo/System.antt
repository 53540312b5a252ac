-- ===== src/Limits/Lifo/System.antt =====
-- concurrencylimits/lifo.go: callers that wait in the backlog, and requests that end, interleaved in
-- any order.
use load_shedding.Prelude.{ℕ, ◌≡◌, true, Option, none, some, List, [], ◌∷◌}
use load_shedding.Prelude.Bag.{Pick}
use load_shedding.Prelude.Int.{ℤ}
use load_shedding.Prelude.Time.{Time, Duration}
use load_shedding.Limits.Limit.{Limiter, Report}
use load_shedding.Limits.Lifo.{
  Lifo, new_lifo, join_backlog, wake, time_out, fast_path, unblock, report_inner,
}

pub record System (S T : Type 0) : Type 0 where
  pub lifo : Lifo S T
  -- The callers in the `select` of `tryAcquire`, by their waiters.
  pub waiting : List ℕ
  -- What the callers that waited have returned: a listener, or `none` for a rejection.
  pub returned : List (ℕ × Option T)

module _ {S T : Type 0} where
  abbrev pub start : Lifo S T → System S T
  start b = record { lifo = b; waiting = []; returned = [] }

  unfoldable pub joined : Lifo S T × Option ℕ → System S T → System S T
  joined (b, none) s = record s { lifo = b }
  joined (b, some w) s = record s { lifo = b; waiting = w ∷ s.waiting }

  module _ (limiter : Limiter S T) where
    pub data Step (s : System S T) : System S T → Type 0 where
      fast_step : (now : Time) → Step s (record s { lifo = (fast_path limiter now s.lifo).0 })
      join_step : Step s (joined (join_backlog s.lifo) s)
      wake_step :
          (w : ℕ) {rest : List ℕ}
          → (s.lifo.heap w).ready ≡ true
          → Pick w s.waiting rest
          → Step s (record s { waiting = rest; returned = (w, wake w s.lifo) ∷ s.returned })
      timeout_step :
          (w : ℕ) {rest : List ℕ}
          → Pick w s.waiting rest
          → Step s (record s {
            lifo = (time_out w s.lifo).0;
            waiting = rest;
            returned = (w, (time_out w s.lifo).1) ∷ s.returned;
          })
      report_step :
          (now : Time) (l : T) (r : Report)
          → Step s (record s { lifo = report_inner limiter now l r s.lifo })
      -- Another thread is in the middle of a call of the delegate, outside the lock, or the delegate changes by
      -- itself.
      delegate_step : (d : S) → Step s (record s { lifo = record s.lifo { delegate = d } })
      unblock_step : (now : Time) → Step s (record s { lifo = unblock limiter now s.lifo })

    pub data Reach (first : S) (size : ℤ) (timeout : Duration) : System S T → Type 0 where
      init : Reach first size timeout (start (new_lifo first size timeout))
      next : {s t : System S T} → Reach first size timeout s → Step s t → Reach first size timeout t
