-- ===== src/Limits/Lifo/Permits.antt =====
-- concurrencylimits/lifo.go: what becomes of a caller that waits, and of the permit given to it.
use load_shedding.Prelude.{
  ℕ, ◌-◌, ◌<◌, ◌≤◌, ◌≡◌, refl, ◌⊎◌, true, false, Option, none, some, List, [], ◌∷◌, arith,
  if◌then◌else◌, ◌==◌,
}
use load_shedding.Prelude.Bag.{Pick-total, count, one_if_eq}
use load_shedding.Prelude.Int.{ℤ}
use load_shedding.Prelude.Time.{Time, Duration}
use load_shedding.Limits.Limit.{Limiter}
use load_shedding.Limits.Lifo.{
  remove_waiter, new_lifo, join_backlog, wake, time_out, fast_path, unblock, unblock_from, grant,
  report_inner,
}
use load_shedding.Limits.Lifo.System.{
  System, joined, Step, fast_step, join_step, wake_step, timeout_step, report_step, delegate_step,
  unblock_step, Reach, init, next,
}

count-remove_waiter :
    (w v : ℕ) (xs : List ℕ)
    → count w (remove_waiter v xs) ≡ (if v == w then count w xs - 1 else count w xs)
unfolding remove_waiter
count-remove_waiter w v [] = ground arith
count-remove_waiter w v (x ∷ xs) = ground (arith, count-remove_waiter w v xs)

-- What a caller has returned, if it has.
abbrev pub returned_as : {T : Type 0} → ℕ → List (ℕ × Option T) → Option (Option T)
returned_as w [] = none
returned_as w ((v, o) ∷ rest) = if v == w then some o else returned_as w rest

module _ {S T : Type 0} where
  -- Where a waiter stands: how often in the backlog, how often among the callers that wait, and what it
  -- has returned.
  abbrev Stands : ℕ → System S T → ℕ → ℕ → Option (Option T) → Type 0
  Stands w s in_backlog in_select result =
      (count w s.lifo.backlog ≡ in_backlog)
      × (count w s.waiting ≡ in_select)
      × (returned_as w s.returned ≡ result)

  abbrev pub IsUnborn : ℕ → System S T → Type 0
  IsUnborn w s = (s.lifo.next_waiter ≤ w) × Stands w s 0 0 none

  abbrev pub IsQueued : ℕ → System S T → Type 0
  IsQueued w s =
      (w < s.lifo.next_waiter)
      × Stands w s 1 1 none
      × ((s.lifo.heap w).ready ≡ false)
      × ((s.lifo.heap w).listener ≡ none)
      × ((s.lifo.heap w).removed ≡ false)

  abbrev pub IsGranted : ℕ → System S T → Type 0
  IsGranted w s =
      (w < s.lifo.next_waiter)
      × Stands w s 0 1 none
      × ((s.lifo.heap w).ready ≡ true)
      × ((l : T) × ((s.lifo.heap w).listener ≡ some l))
      × ((s.lifo.heap w).removed ≡ true)

  abbrev pub IsGone : ℕ → System S T → Type 0
  IsGone w s =
      (w < s.lifo.next_waiter)
      × Stands w s 0 0 (some (s.lifo.heap w).listener)
      × ((s.lifo.heap w).removed ≡ true)

  abbrev pub Status : ℕ → System S T → Type 0
  Status w s = IsUnborn w s ⊎ IsQueued w s ⊎ IsGranted w s ⊎ IsGone w s

  module _ (limiter : Limiter S T) (w : ℕ) where
    unblock-Status :
        (now : Time) (s : System S T) (backlog : List ℕ)
        → s.lifo.backlog ≡ backlog
        → Status w s
        → Status w (record s { lifo = unblock_from limiter now s.lifo backlog })
    unfolding unblock_from grant
    unblock-Status now s [] e st = st
    unblock-Status now s (v ∷ rest) e st = ground arith

    Step-Status : {s t : System S T} → Step limiter s t → Status w s → Status w t
    unfolding fast_path join_backlog joined wake time_out report_inner unblock
    Step-Status (fast_step now) st = ground arith
    Step-Status join_step st = ground arith
    Step-Status (wake_step v r p) st = ground (arith, Pick-total (one_if_eq w) p)
    Step-Status {s} (timeout_step v p) st =
        ground (arith, Pick-total (one_if_eq w) p, count-remove_waiter w v s.lifo.backlog)
    Step-Status (report_step now l r) st = ground arith
    Step-Status (delegate_step d) st = ground arith
    Step-Status {s} (unblock_step now) st = unblock-Status now s s.lifo.backlog refl st

    -- The fate of a caller that had to wait, in every state that a new limiter reaches. Its waiter is not
    -- yet allocated; or it is in the backlog once, its caller waits, and it has no permit; or it has been
    -- taken out and holds a permit, and its caller still waits, so that either branch of the select
    -- returns that permit; or its caller has returned, with what the waiter holds.
    pub Reach-Status :
        {first : S} {size : ℤ} {timeout : Duration} {s : System S T}
        → Reach limiter first size timeout s
        → Status w s
    unfolding new_lifo
    Reach-Status init = ground arith
    Reach-Status (next r st) = Step-Status st (Reach-Status r)
