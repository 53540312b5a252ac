-- ===== src/Limits/Lifo/Holders.antt =====
-- concurrencylimits/lifo.go: the callers' side of the backlog, who holds a listener and who has ended
-- one. A call of the delegate that another thread interrupts is a change of the delegate, and then the
-- return from the call.
use load_shedding.Prelude.{ℕ, ◌+◌, ◌≡◌, true, Option, none, some, List, [], ◌∷◌}
use load_shedding.Prelude.Bag.{Pick}
use load_shedding.Prelude.Int.{ℤ}
use load_shedding.Prelude.Time.{Time, Duration}
use load_shedding.Limits.Limit.{Limiter, Report}
use load_shedding.Limits.Lifo.{
  new_lifo, join_backlog, wake, time_out, fast_path, unblock, report_inner,
}
use load_shedding.Limits.Lifo.System.{
  System, start, joined, Reach, Step, fast_step, join_step, wake_step, timeout_step, report_step,
  delegate_step, unblock_step,
}
use load_shedding.Limits.Lifo.System as System

abbrev pub handed : {T : Type 0} → Option T → List T → List T
handed none holders = holders
handed (some l) holders = l ∷ holders

-- Any delegate, with a count of the listeners that it has handed out.
pub record Issuing (S : Type 0) : Type 0 where
  pub inner : S
  pub issued : ℕ

abbrev pub first_issuing : {S : Type 0} → S → Issuing S
first_issuing s = record { inner = s; issued = 0 }

module _ {S T : Type 0} where
  abbrev pub count_issue : ℕ → S × Option T → Issuing S × Option T
  count_issue n (s, none) = (record { inner = s; issued = n }, none)
  count_issue n (s, some l) = (record { inner = s; issued = n + 1 }, some l)

  abbrev pub issuing : Limiter S T → Limiter (Issuing S) T
  issuing limiter = record {
    acquire = λ now d. count_issue d.issued (limiter.acquire now d.inner);
    report =
        λ now l r d. let (s, l') = limiter.report now l r d.inner in (record d { inner = s }, l');
  }

module _ {S T : Type 0} (delegate : Limiter S T) (first : S) (size : ℤ) (timeout : Duration) where
  abbrev pub limiter : Limiter (Issuing S) T
  limiter = issuing delegate

  -- `Holding s holders ended`: a history leads to `s`, in which callers hold the listeners `holders`,
  -- and have reported on the listeners `ended`.
  pub data Holding : System (Issuing S) T → List T → List T → Type 0 where
    fresh : Holding (start (new_lifo (first_issuing first) size timeout)) [] []
    fast :
        (now : Time) {s : System (Issuing S) T} {holders ended : List T}
        → Holding s holders ended
        → Holding
            (record s { lifo = (fast_path limiter now s.lifo).0 })
            (handed (fast_path limiter now s.lifo).1 holders)
            ended
    join :
        {s : System (Issuing S) T} {holders ended : List T}
        → Holding s holders ended
        → Holding (joined (join_backlog s.lifo) s) holders ended
    woken :
        (w : ℕ) {s : System (Issuing S) T} {holders ended : List T} {rest : List ℕ}
        → (s.lifo.heap w).ready ≡ true
        → Pick w s.waiting rest
        → Holding s holders ended
        → Holding
            (record s { waiting = rest; returned = (w, wake w s.lifo) ∷ s.returned })
            (handed (wake w s.lifo) holders)
            ended
    timed_out :
        (w : ℕ) {s : System (Issuing S) T} {holders ended : List T} {rest : List ℕ}
        → Pick w s.waiting rest
        → Holding s holders ended
        → Holding
            (record s {
              lifo = (time_out w s.lifo).0;
              waiting = rest;
              returned = (w, (time_out w s.lifo).1) ∷ s.returned;
            })
            (handed (time_out w s.lifo).1 holders)
            ended
    reported :
        (now : Time) (l : T) (r : Report) {s : System (Issuing S) T} {holders ended left : List T}
        → Pick l holders left
        → Holding s holders ended
        → Holding
            (record s { lifo = report_inner limiter now l r s.lifo })
            left
            ((limiter.report now l r s.lifo.delegate).1 ∷ ended)
    reported_again :
        (now : Time) (l : T) (r : Report) {s : System (Issuing S) T} {holders ended left : List T}
        → Pick l ended left
        → Holding s holders ended
        → Holding
            (record s { lifo = report_inner limiter now l r s.lifo })
            holders
            ((limiter.report now l r s.lifo.delegate).1 ∷ left)
    stirred :
        (d : S) {s : System (Issuing S) T} {holders ended : List T}
        → Holding s holders ended
        → Holding
            (record s { lifo = record s.lifo { delegate = record s.lifo.delegate { inner = d } } })
            holders
            ended
    unblocked :
        (now : Time) {s : System (Issuing S) T} {holders ended : List T}
        → Holding s holders ended
        → Holding (record s { lifo = unblock limiter now s.lifo }) holders ended

  -- The history without its holders.
  pub Holding-Reach :
      {s : System (Issuing S) T} {holders ended : List T}
      → Holding s holders ended
      → Reach limiter (first_issuing first) size timeout s
  Holding-Reach fresh = System.init
  Holding-Reach (fast now h) = System.next (Holding-Reach h) (fast_step now)
  Holding-Reach (join h) = System.next (Holding-Reach h) join_step
  Holding-Reach (woken w e p h) = System.next (Holding-Reach h) (wake_step w e p)
  Holding-Reach (timed_out w p h) = System.next (Holding-Reach h) (timeout_step w p)
  Holding-Reach (reported now l r p h) = System.next (Holding-Reach h) (report_step now l r)
  Holding-Reach (reported_again now l r p h) = System.next (Holding-Reach h) (report_step now l r)
  Holding-Reach (stirred d h) = System.next (Holding-Reach h) (delegate_step _)
  Holding-Reach (unblocked now h) = System.next (Holding-Reach h) (unblock_step now)
