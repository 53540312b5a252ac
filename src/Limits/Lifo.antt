-- ===== src/Limits/Lifo.antt =====
-- concurrencylimits/lifo.go: a bounded LIFO backlog in front of a limiter.
pub mod System
pub mod Permits
pub mod Backlog
pub mod Holders
pub mod Granted
pub mod Balance
pub mod Conserve
use load_shedding.Prelude.{
  ℕ, zero, suc, ◌+◌, Bool, true, false, Option, none, some, List, [], ◌∷◌, if◌then◌else◌, ◌==◌,
  length,
}
use load_shedding.Prelude.Int.{ℤ, pos, ltb_ℤ}
use load_shedding.Prelude.Time.{Time, Duration}
use load_shedding.Limits.Limit.{Limiter, Report}

-- `waiter`. The channel `ready` is closed just where `removed` becomes true in `unblock`.
pub record Waiter (T : Type 0) : Type 0 where
  pub ready : Bool
  pub listener : Option T
  pub removed : Bool

-- A pointer to a waiter is its number; `next_waiter` is the next allocation, `heap` what the pointers
-- lead to.
pub record Lifo (S T : Type 0) : Type 0 where
  pub delegate : S
  pub backlog_size : ℤ
  pub backlog_timeout : Duration
  pub backlog : List ℕ
  pub heap : ℕ → Waiter T
  pub next_waiter : ℕ

abbrev pub default_backlog_size : ℤ
default_backlog_size = pos 100

abbrev pub update : {A : Type 0} → (ℕ → A) → ℕ → A → ℕ → A
update f w v j = if w == j then v else f j

-- `removeWaiter`: the first occurrence goes.
unfoldable pub remove_waiter : ℕ → List ℕ → List ℕ
remove_waiter w [] = []
remove_waiter w (x ∷ xs) = if x == w then xs else x ∷ remove_waiter w xs

abbrev pub new_waiter : {T : Type 0} → Waiter T
new_waiter = record { ready = false; listener = none; removed = false }

module _ {S T : Type 0} where
  unfoldable pub new_lifo : S → ℤ → Duration → Lifo S T
  new_lifo delegate backlog_size timeout = record {
    delegate = delegate;
    backlog_size = if ltb_ℤ (pos 0) backlog_size then backlog_size else default_backlog_size;
    backlog_timeout = timeout;
    backlog = [];
    heap = λ _. new_waiter;
    next_waiter = 0;
  }

  -- The critical section of `tryAcquire` after the fast path: the new waiter, or `none` where the backlog
  -- is full.
  unfoldable pub join_backlog : Lifo S T → Lifo S T × Option ℕ
  join_backlog b =
      if ltb_ℤ (pos (length b.backlog)) b.backlog_size
      then (
        record b {
          backlog = b.next_waiter ∷ b.backlog;
          heap = update b.heap b.next_waiter new_waiter;
          next_waiter = b.next_waiter + 1;
        },
        some b.next_waiter,
      )
      else (b, none)

  -- What a caller whose channel is ready returns.
  unfoldable pub wake : ℕ → Lifo S T → Option T
  wake w b = (b.heap w).listener

  -- What a caller whose timer has fired does under the lock, and returns.
  unfoldable pub time_out : ℕ → Lifo S T → Lifo S T × Option T
  unfolding remove_waiter
  time_out w b = if (b.heap w).removed then (b, (b.heap w).listener) else (
    record b {
      backlog = remove_waiter w b.backlog;
      heap = update b.heap w (record (b.heap w) { removed = true });
    },
    none,
  )

  -- `unblock` gives the permit to the newest waiter.
  grant : ℕ → List ℕ → Lifo S T → S × Option T → Lifo S T
  grant w rest b (delegate, none) = record b { delegate = delegate }
  grant w rest b (delegate, some l) = record b {
    delegate = delegate;
    backlog = rest;
    heap = update b.heap w (record { ready = true; listener = some l; removed = true });
  }

  module _ (limiter : Limiter S T) where
    open limiter use {acquire, report}

    -- The fast path of `tryAcquire`.
    unfoldable pub fast_path : Time → Lifo S T → Lifo S T × Option T
    fast_path now b =
        let (delegate, l) = acquire now b.delegate in (record b { delegate = delegate }, l)

    unblock_from : Time → Lifo S T → List ℕ → Lifo S T
    unblock_from now b [] = b
    unblock_from now b (w ∷ rest) = grant w rest b (acquire now b.delegate)

    unfoldable pub unblock : Time → Lifo S T → Lifo S T
    unfolding unblock_from grant
    unblock now b = unblock_from now b b.backlog

    -- `OnSuccess`, `OnIgnore` and `OnDropped` of a lifoListener, before `unblock`.
    unfoldable pub report_inner : Time → T → Report → Lifo S T → Lifo S T
    report_inner now l r b = record b { delegate = (report now l r b.delegate).0 }

    -- The whole call.
    unfoldable pub report_lifo : Time → Time → T → Report → Lifo S T → Lifo S T
    unfolding report_inner unblock
    report_lifo now later l r b = unblock later (report_inner now l r b)
