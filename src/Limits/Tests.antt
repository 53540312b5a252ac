-- ===== src/Limits/Tests.antt =====
-- A window of three samples, and runs of the limiters.
mod LifoRun
mod HolderRun
mod Adaptive
mod Stack
mod WindowRun
use load_shedding.Prelude.{
  ℕ, suc, ◌+◌, ◌<◌, ◌≡◌, refl, inl, inr, Bool, true, false, Option, none, some, List, [], ◌∷◌,
  arith, length,
}
use load_shedding.Prelude.Bag.{Pick, Swap, count}
use load_shedding.Prelude.Int.{ℤ, pos, ◌≤ℤ◌, ◌+ℤ◌}
use load_shedding.Prelude.Word.{wrap}
use load_shedding.Prelude.Time.{Time, sub}
use load_shedding.Http.{Script, header, body, returned, panicked}
use load_shedding.Limits.Limit.{Limit, fixed_limit, Report, on_success, on_dropped}
use load_shedding.Limits.Limiter.{
  SimpleLimiter, Listener, new_simple_limiter, acquire_add, acquire_test, finish, acquire,
  simple_limiter, finish_swap, release, finish_sample,
}
use load_shedding.Limits.Limiter.System.{
  Phase, testing, live, System, start, Step, add_step, admit_step, Reach, init, next,
}
use load_shedding.Limits.Windowed.Window.{
  window_of-Summary, window_of, Sample, Summary, least_time, most_in_flight,
}
use load_shedding.Limits.Windowed.{tracked_rtt}
use load_shedding.Limits.Handler.{handle}

abbrev sample : ℕ → ℕ → Bool → Sample
sample rtt inflight dropped = record { rtt = rtt; inflight = inflight; dropped = dropped }

abbrev older : List Sample
older = sample 300_000 7 true ∷ sample 200_000 4 false ∷ []

abbrev latest : Sample
latest = sample 250_000 5 false

window_of-Summary_example :
    Summary
      (least_time (latest ∷ older))
      (most_in_flight (latest ∷ older))
      (latest ∷ older)
      (window_of (latest ∷ older))
    × (pos (least_time (latest ∷ older)) ≤ℤ tracked_rtt (window_of (latest ∷ older)))
window_of-Summary_example = window_of-Summary latest older (omega arith) (omega arith)
