-- ===== src/Limits/Lifo/Conserve.antt =====
-- concurrencylimits/lifo.go: no permit of the delegate is lost in the backlog, or handed out twice.
use load_shedding.Prelude.{ℕ, ◌+◌, ◌≡◌, refl, false, none, List, ◌∷◌, arith, length}
use load_shedding.Prelude.Bag.{Pick, Pick-total, Pick-length, count, one_if_eq}
use load_shedding.Prelude.Int.{ℤ}
use load_shedding.Prelude.Time.{Duration}
use load_shedding.Limits.Limit.{Limiter}
use load_shedding.Limits.Lifo.{new_lifo, report_inner}
use load_shedding.Limits.Lifo.System.{System}
use load_shedding.Limits.Lifo.Permits.{Status, Reach-Status}
use load_shedding.Limits.Lifo.Holders.{
  Issuing, issuing, Holding, Holding-Reach, fresh, fast, join, woken, timed_out, reported,
  reported_again, stirred, unblocked,
}
use load_shedding.Limits.Lifo.Granted.{granted_in}
use load_shedding.Limits.Lifo.Balance.{
  fast-Balanced, join-Balanced, wake-Balanced, time_out-Balanced, unblock-Balanced,
}

module _ {S T : Type 0} where
  -- What the fate of each waiter says at each step.
  absent_unborn :
      (w : ℕ) (s : System S T) → s.lifo.next_waiter ≡ w → Status w s → count w s.waiting ≡ 0
  absent_unborn w s e st = ground (arith, e, st)

  waits_bare :
      (w : ℕ) (rest : List ℕ) (s : System S T)
      → s.lifo.backlog ≡ w ∷ rest
      → Status w s
      → (count w s.waiting ≡ 1) × ((s.lifo.heap w).listener ≡ none)
  waits_bare w rest s e st = ground (arith, e, st)

  bare_unremoved :
      (w : ℕ) (s : System S T) {rest : List ℕ}
      → Pick w s.waiting rest
      → Status w s
      → (s.lifo.heap w).removed ≡ false
      → (s.lifo.heap w).listener ≡ none
  bare_unremoved w s p st h = ground (arith, Pick-total (one_if_eq w) p, st, h)

module _ {S T : Type 0} (delegate : Limiter S T) {first : S} {size : ℤ} {timeout : Duration} where
  fate :
      (w : ℕ) {s : System (Issuing S) T} {holders ended : List T}
      → Holding delegate first size timeout s holders ended
      → Status w s
  fate w h = Reach-Status (issuing delegate) w (Holding-Reach delegate first size timeout h)

  -- Over any delegate, which other threads may be in the middle of calling and which may change in any
  -- way at any time: in every state that callers who wait, give up, report once or again, and calls of
  -- `unblock` lead to in any order, the listeners that the delegate has handed out are as many as those
  -- that callers hold and have not reported on, those that callers have reported on, and those in the
  -- waiters of callers that have been given one and have not picked it up.
  pub lifo_conserves :
      {s : System (Issuing S) T} {holders ended : List T}
      → Holding delegate first size timeout s holders ended
      → s.lifo.delegate.issued ≡ length holders + length ended + granted_in s.lifo.heap s.waiting
  unfolding new_lifo report_inner
  lifo_conserves fresh = refl
  lifo_conserves (fast now {s} {holders} {ended} h) =
      fast-Balanced delegate now s holders (length ended) (lifo_conserves h)
  lifo_conserves (join {s} {holders} {ended} h) =
      join-Balanced s (length holders + length ended)
        (absent_unborn s.lifo.next_waiter s refl (fate s.lifo.next_waiter h)) (lifo_conserves h)
  lifo_conserves (woken w {s} {holders} {ended} {rest} e p h) =
      wake-Balanced w s rest holders (length ended) p (lifo_conserves h)
  lifo_conserves (timed_out w {s} {holders} {ended} {rest} p h) =
      time_out-Balanced w s rest holders (length ended) (bare_unremoved w s p (fate w h)) p
        (lifo_conserves h)
  lifo_conserves (reported now l r p h) = omega (arith, lifo_conserves h, Pick-length p)
  lifo_conserves (reported_again now l r p h) = omega (arith, lifo_conserves h, Pick-length p)
  lifo_conserves (stirred d h) = lifo_conserves h
  lifo_conserves (unblocked now {s} {holders} {ended} h) =
      unblock-Balanced delegate now s (length holders + length ended)
        (λ w rest e. waits_bare w rest s e (fate w h)) (lifo_conserves h)
