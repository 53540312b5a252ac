-- ===== src/Limits/Tests/WindowRun.antt =====
-- Windows of two samples in front of a delegate that keeps the latest average.
use load_shedding.Prelude.{◌≡◌, refl, true, false, List, [], ◌∷◌, arith}
use load_shedding.Prelude.Int.{ℤ, pos, ◌+ℤ◌, ◌*ℤ◌}
use load_shedding.Prelude.Word.{wrap}
use load_shedding.Limits.Limit.{Limit}
use load_shedding.Limits.Windowed.{
  WindowedLimit, new_windowed_limit, windowed_window_size, windowed_on_sample, flush, add,
  clamp_duration, tracked_rtt,
}
use load_shedding.Limits.Windowed.Timing.{Call}
use load_shedding.Limits.Windowed.Spacing.{
  feeds, feeds-IsSpaced, fed_with, after_calls, AllFull, IsSpaced,
}

abbrev latest_rtt : Limit ℤ
latest_rtt = record { on_sample = λ rtt _ _ _. rtt; limit = λ l. l }

abbrev windows : WindowedLimit ℤ
windows = new_windowed_limit (pos 0) (windowed_window_size (pos 2) ∷ [])

abbrev calls : List Call
calls =
    record { now = pos 1_000_000_000; rtt = pos 300_000; inflight = pos 1; dropped = false }
    ∷ record { now = pos 2_500_000_000; rtt = pos 500_000; inflight = pos 2; dropped = false }
    ∷ record { now = pos 2_600_000_000; rtt = pos 700_000; inflight = pos 3; dropped = true }
    ∷ record { now = pos 3_900_000_000; rtt = pos 100_000; inflight = pos 1; dropped = false }
    ∷ []

-- The second call feeds the average of two samples, and the fourth that of the next two.
feeds_twice : (after_calls latest_rtt calls windows).delegate ≡ pos 400_000
unfolding new_windowed_limit windowed_on_sample flush add clamp_duration tracked_rtt wrap ◌+ℤ◌ ◌*ℤ◌
feeds_twice = refl

feeds-IsSpaced_example :
    ((after_calls latest_rtt calls windows).delegate
      ≡ fed_with latest_rtt (feeds latest_rtt calls windows []) (pos 0))
    × AllFull (pos 2) (feeds latest_rtt calls windows [])
    × IsSpaced (pos 1_000_000_000) (feeds latest_rtt calls windows [])
unfolding new_windowed_limit
feeds-IsSpaced_example =
    feeds-IsSpaced latest_rtt calls windows refl refl (omega arith) (omega arith)
      (refl, (refl, (refl, (refl, tt)))) (omega arith)
