-- ===== src/Limits/Tests/HolderRun.antt =====
-- A backlog before a limiter of one permit that counts what it hands out: the first caller ends, and the
-- newest of the two that wait is given the permit.
use load_shedding.Prelude.{◌+◌, ◌≡◌, refl, true, false, [], ◌∷◌}
use load_shedding.Prelude.Bag.{Pick}
use load_shedding.Prelude.Int.{ℤ, pos, ◌+ℤ◌}
use load_shedding.Prelude.Word.{wrap}
use load_shedding.Limits.Limit.{fixed_limit, Limiter, on_success}
use load_shedding.Limits.Limiter.{
  SimpleLimiter, Listener, new_simple_limiter, acquire_add, acquire_test, acquire, finish,
  finish_swap, release, finish_sample, simple_limiter,
}
use load_shedding.Limits.Lifo.{new_lifo, join_backlog, fast_path, unblock, report_inner}
use load_shedding.Limits.Lifo.System.{System, start, joined}
use load_shedding.Limits.Lifo.Holders.{
  Issuing, issuing, first_issuing, Holding, fresh, fast, join, reported, unblocked,
}
use load_shedding.Limits.Lifo.Granted.{granted_in}
use load_shedding.Limits.Lifo.Conserve.{lifo_conserves}

abbrev delegate : Limiter (SimpleLimiter ℤ) Listener
delegate = simple_limiter fixed_limit

abbrev limiter : Limiter (Issuing (SimpleLimiter ℤ)) Listener
limiter = issuing delegate

abbrev Run : Type 0
Run = System (Issuing (SimpleLimiter ℤ)) Listener

abbrev s0 : Run
s0 = start (new_lifo (first_issuing (new_simple_limiter (pos 1))) (pos 5) (pos 1_000))

abbrev s1 : Run
s1 = record s0 { lifo = (fast_path limiter (pos 10) s0.lifo).0 }

abbrev s2 : Run
s2 = joined (join_backlog s1.lifo) s1

abbrev s3 : Run
s3 = joined (join_backlog s2.lifo) s2

abbrev served : Listener
served = record { start = pos 10; inflight = pos 1; finished = false }

abbrev s4 : Run
s4 = record s3 { lifo = report_inner limiter (pos 20) served on_success s3.lifo }

abbrev s5 : Run
s5 = record s4 { lifo = unblock limiter (pos 30) s4.lifo }

abbrev spent : Listener
spent = record { start = pos 10; inflight = pos 1; finished = true }

holding : Holding delegate (new_simple_limiter (pos 1)) (pos 5) (pos 1_000) s5 [] (spent ∷ [])
unfolding new_lifo new_simple_limiter fast_path joined join_backlog report_inner acquire acquire_add
    acquire_test finish finish_swap release finish_sample wrap ◌+ℤ◌
holding =
    unblocked (pos 30)
      (reported (pos 20) served on_success Pick.here (join (join (fast (pos 10) fresh))))

lifo_conserves_example : s5.lifo.delegate.issued ≡ 0 + 1 + granted_in s5.lifo.heap s5.waiting
lifo_conserves_example = lifo_conserves delegate holding

-- Two permits in all, of which one waits to be picked up.
handed_out : (s5.lifo.delegate.issued ≡ 2) × (granted_in s5.lifo.heap s5.waiting ≡ 1)
unfolding new_lifo new_simple_limiter fast_path joined join_backlog report_inner acquire acquire_add
    acquire_test finish finish_swap release finish_sample unblock wrap ◌+ℤ◌
handed_out = (refl, refl)
