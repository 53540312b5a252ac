-- ===== src/Limits/Lifo/Backlog.antt =====
-- concurrencylimits/lifo.go: the backlog is bounded, and is served newest first.
use load_shedding.Prelude.{
  ℕ, suc, ◌<◌, ◌≡◌, refl, ap, ◌⊎◌, inl, inr, true, Option, none, some, List, [], ◌∷◌, arith, length,
  if◌then◌else◌,
}
use load_shedding.Prelude.Int.{ℤ, pos, ◌≤ℤ◌, ltb_ℤ}
use load_shedding.Prelude.Time.{Time, Duration}
use load_shedding.Limits.Limit.{Limiter}
use load_shedding.Limits.Lifo.{
  Lifo, update, remove_waiter, new_lifo, join_backlog, wake, time_out, fast_path, unblock,
  unblock_from, grant, report_inner, default_backlog_size,
}
use load_shedding.Limits.Lifo.System.{
  System, joined, Step, fast_step, join_step, wake_step, timeout_step, report_step, delegate_step,
  unblock_step, Reach, init, next,
}

-- Waiters are numbered as they come: the backlog is in descending order, below `bound`.
abbrev pub IsNewestFirst : ℕ → List ℕ → Type 0
IsNewestFirst bound [] = Unit {0}
IsNewestFirst bound (w ∷ older) = (w < bound) × IsNewestFirst w older

IsNewestFirst-mono : (a b : ℕ) (xs : List ℕ) → a < suc b → IsNewestFirst a xs → IsNewestFirst b xs
IsNewestFirst-mono a b [] h d = tt
IsNewestFirst-mono a b (x ∷ xs) h d = (omega (arith, d.0), d.1)

remove_waiter-IsNewestFirst :
    (w bound : ℕ) (xs : List ℕ) → IsNewestFirst bound xs → IsNewestFirst bound (remove_waiter w xs)
unfolding remove_waiter
remove_waiter-IsNewestFirst w bound [] d = tt
remove_waiter-IsNewestFirst w bound (x ∷ xs) d =
    ground (arith, d, IsNewestFirst-mono x bound xs, remove_waiter-IsNewestFirst w x xs d.1)

length-remove_waiter : (w : ℕ) (xs : List ℕ) → length (remove_waiter w xs) < suc (length xs)
unfolding remove_waiter
length-remove_waiter w [] = omega arith
length-remove_waiter w (x ∷ xs) = ground (arith, length-remove_waiter w xs)

abbrev pub size_or_default : ℤ → ℤ
size_or_default size = if ltb_ℤ (pos 0) size then size else default_backlog_size

module _ {S T : Type 0} (limiter : Limiter S T) (size : ℤ) where
  record Inv (s : System S T) : Type 0 where
    same_size : s.lifo.backlog_size ≡ size_or_default size
    bounded : pos (length s.lifo.backlog) ≤ℤ s.lifo.backlog_size
    ordered : IsNewestFirst s.lifo.next_waiter s.lifo.backlog

  unblock-Inv :
      (now : Time) (s : System S T) (backlog : List ℕ)
      → s.lifo.backlog ≡ backlog
      → Inv s
      → Inv (record s { lifo = unblock_from limiter now s.lifo backlog })
  unfolding unblock_from grant
  unblock-Inv now s [] e v = v
  unblock-Inv now s (w ∷ rest) e v = ground (arith, IsNewestFirst-mono w s.lifo.next_waiter rest)

  Step-Inv : {s t : System S T} → Step limiter s t → Inv s → Inv t
  unfolding fast_path join_backlog joined wake time_out report_inner unblock
  Step-Inv (fast_step now) v = ground arith
  Step-Inv join_step v = ground arith
  Step-Inv (wake_step w r p) v = ground arith
  Step-Inv {s} (timeout_step w p) v = ground (
    arith,
    length-remove_waiter w s.lifo.backlog,
    remove_waiter-IsNewestFirst w s.lifo.next_waiter s.lifo.backlog v.ordered,
  )
  Step-Inv (report_step now l r) v = ground arith
  Step-Inv (delegate_step d) v = ground arith
  Step-Inv {s} (unblock_step now) v = unblock-Inv now s s.lifo.backlog refl v

  Reach-Inv :
      {first : S} {timeout : Duration} {s : System S T} → Reach limiter first size timeout s → Inv s
  unfolding new_lifo
  Reach-Inv init = ground arith
  Reach-Inv (next r st) = Step-Inv st (Reach-Inv r)

  -- What `unblock` does for the waiters: nothing, where none waits or the delegate has no permit; or the
  -- newest of them, and it alone, leaves the backlog with the permit.
  abbrev pub Served : Time → Lifo S T → Lifo S T → Type 0
  Served now b c =
      ((c.backlog ≡ b.backlog)
        × (c.heap ≡ b.heap)
        × ((b.backlog ≡ []) ⊎ ((limiter.acquire now b.delegate).1 ≡ none)))
      ⊎ ((w : ℕ) × (rest : List ℕ) × (l : T) × (b.backlog ≡ w ∷ rest)
          × ((limiter.acquire now b.delegate).1 ≡ some l)
          × (c.backlog ≡ rest)
          × (c.heap ≡ update b.heap w (record { ready = true; listener = some l; removed = true }))
          × IsNewestFirst w rest)

  granted-Served :
      (now : Time) (b : Lifo S T) (w : ℕ) (rest : List ℕ) (x : S × Option T)
      → limiter.acquire now b.delegate ≡ x
      → b.backlog ≡ w ∷ rest
      → IsNewestFirst w rest
      → Served now b (grant w rest b x)
  unfolding grant
  granted-Served now b w rest (d, none) e k h = inl (refl, refl, inr (ap (λ y. y.1) e))
  granted-Served now b w rest (d, some l) e k h =
      inr (w, rest, l, k, ap (λ y. y.1) e, refl, refl, h)

  unblock_from-Served :
      (now : Time) (b : Lifo S T) (backlog : List ℕ)
      → b.backlog ≡ backlog
      → IsNewestFirst b.next_waiter backlog
      → Served now b (unblock_from limiter now b backlog)
  unfolding unblock_from
  unblock_from-Served now b [] e h = inl (refl, refl, inl e)
  unblock_from-Served now b (w ∷ rest) e h =
      granted-Served now b w rest (limiter.acquire now b.delegate) refl e h.1

  -- In every state that a new limiter reaches, the backlog holds at most `backlogSize` waiters, or 100
  -- where that was not positive, and they stand newest first. There `unblock` gives a permit to the newest
  -- waiter, which alone leaves the backlog, if some caller waits and the delegate has a permit, and else
  -- changes nothing for the waiters.
  pub unblock_newest :
      {first : S} {timeout : Duration} {s : System S T} (now : Time)
      → Reach limiter first size timeout s
      → (pos (length s.lifo.backlog) ≤ℤ size_or_default size)
        × IsNewestFirst s.lifo.next_waiter s.lifo.backlog
        × Served now s.lifo (unblock limiter now s.lifo)
  unfolding unblock
  unblock_newest {s} now r =
      let v = Reach-Inv r in
      (ground (arith, v), v.ordered, unblock_from-Served now s.lifo s.lifo.backlog refl v.ordered)
