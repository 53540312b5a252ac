-- ===== src/Limits/Tests/LifoRun.antt =====
-- A backlog before a limiter of one permit: one caller has the permit, two wait, and the first ends.
use load_shedding.Prelude.{false, length}
use load_shedding.Prelude.Int.{ℤ, pos, ◌≤ℤ◌}
use load_shedding.Limits.Limit.{fixed_limit, Limiter, on_success}
use load_shedding.Limits.Limiter.{SimpleLimiter, Listener, new_simple_limiter, simple_limiter}
use load_shedding.Limits.Lifo.{new_lifo, join_backlog, fast_path, unblock, report_inner}
use load_shedding.Limits.Lifo.System.{
  System, start, joined, fast_step, join_step, report_step, Reach, init, next,
}
use load_shedding.Limits.Lifo.Permits.{Reach-Status, Status}
use load_shedding.Limits.Lifo.Backlog.{unblock_newest, size_or_default, IsNewestFirst, Served}

abbrev limiter : Limiter (SimpleLimiter ℤ) Listener
limiter = simple_limiter fixed_limit

abbrev Run : Type 0
Run = System (SimpleLimiter ℤ) Listener

abbrev s0 : Run
s0 = start (new_lifo (new_simple_limiter (pos 1)) (pos 5) (pos 1_000))

abbrev s1 : Run
s1 = record s0 { lifo = (fast_path limiter (pos 10) s0.lifo).0 }

abbrev s2 : Run
s2 = joined (join_backlog s1.lifo) s1

abbrev s3 : Run
s3 = joined (join_backlog s2.lifo) s2

abbrev served : Listener
served = record { start = pos 10; inflight = pos 1; finished = false }

-- The permit is back, and the backlog is not yet told.
abbrev s4 : Run
s4 = record s3 { lifo = report_inner limiter (pos 20) served on_success s3.lifo }

reach : Reach limiter (new_simple_limiter (pos 1)) (pos 5) (pos 1_000) s4
reach =
    next (next (next (next init (fast_step (pos 10))) join_step) join_step)
      (report_step (pos 20) served on_success)

Reach-Status_example : Status 1 s4
Reach-Status_example = Reach-Status limiter 1 reach

unblock_newest_example :
    (pos (length s4.lifo.backlog) ≤ℤ size_or_default (pos 5))
    × IsNewestFirst s4.lifo.next_waiter s4.lifo.backlog
    × Served limiter (pos 5) (pos 30) s4.lifo (unblock limiter (pos 30) s4.lifo)
unblock_newest_example = unblock_newest limiter (pos 5) (pos 30) reach
