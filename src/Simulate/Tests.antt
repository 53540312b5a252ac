-- ===== src/Simulate/Tests.antt =====
-- A run of three requests, two of which overlap.
use load_shedding.Prelude.{ℕ, [], ◌∷◌, map, ◌+◌, ◌≡◌, refl, length, arith}
use load_shedding.Prelude.Bag.{total, Pick}
use load_shedding.Prelude.Int.{pos, ◌+ℤ◌}
use load_shedding.Prelude.Word.{wrap}
use load_shedding.Prelude.Float.Fixed.{fixed, fixed-IsClamping, fixed-IsMonotone, fixed-IsScaling}
use load_shedding.Queue.Cpu.Text.{Text, codes}
use load_shedding.Simulate.Command
use load_shedding.Simulate.{
  Scenario, Result, Answer, Run, start_run, tick, finish, append_next, append_latency, append_step,
  finish_request, tick_step, finish_step, Reach, init, next, report,
}
use load_shedding.Simulate.Tally.{Tallied, served_one, shed_one, other_one, run-Tallied}
use load_shedding.Simulate.Percentile.{Reported, report-Reported}

abbrev scenario : Scenario
scenario = record { duration = pos 1000; rps = pos 500; service_time = pos 40 }

abbrev good : Answer
good = record { code = 200; latency = pos 45 }

abbrev refused : Answer
refused = record { code = 503; latency = pos 2 }

abbrev late : Answer
late = record { code = 200; latency = pos 30 }

abbrev r0 : Run
r0 = start_run scenario (pos 10)

abbrev r3 : Run
r3 = finish refused (tick (pos 30) (tick (pos 20) r0))

abbrev r6 : Run
r6 = finish late (tick (pos 50) (finish good r3))

reach6 : Reach scenario r6
unfolding tick finish finish_request ◌+ℤ◌
reach6 =
    next
      (next
        (next
          (next (next (next (init (pos 10)) (tick_step (pos 20) refl)) (tick_step (pos 30) refl))
            (finish_step refused (omega arith)))
          (finish_step good (omega arith)))
        (tick_step (pos 50) refl))
      (finish_step late (omega arith))

-- The faster of the two served requests is the first at the lock.
abbrev r8 : Run
r8 = append_next (pos 45) [] (append_next (pos 30) (pos 45 ∷ []) r6)

reach : Reach scenario r8
unfolding tick finish finish_request append_next append_latency ◌+ℤ◌
reach = next (next reach6 (append_step (pos 30) Pick.here)) (append_step (pos 45) Pick.here)

run-Tallied_example :
    Tallied r8
    × (total served_one r8.answers + total shed_one r8.answers + total other_one r8.answers
        ≡ length r8.answers)
run-Tallied_example = run-Tallied reach

counted : (r8.counters.served ≡ pos 2) × (r8.counters.shed ≡ pos 1) × (r8.counters.sent ≡ pos 3)
unfolding tick finish finish_request append_next append_latency wrap ◌+ℤ◌
counted = (refl, refl, refl)

report-Reported_example :
    Reported r8.counters.latencies (report fixed (codes "gozero") (pos 100) r8.counters)
unfolding tick finish finish_request append_next append_latency ◌+ℤ◌
report-Reported_example =
    report-Reported fixed fixed-IsClamping fixed-IsMonotone fixed-IsScaling (codes "gozero")
      (pos 100) r8.counters (omega arith)

-- The command gives each strategy its name, and the two CoDel pools differ.
abbrev named : Text → Command.Strategy fixed ℕ → Scenario → Result
named name _ sc = record {
  name = name;
  sent = pos 0;
  served = pos 0;
  shed = pos 0;
  other = pos 0;
  p50 = pos 0;
  p95 = pos 0;
  p99 = pos 0;
  wall = sc.duration;
}

command_names :
    map (λ r. r.name) (Command.main fixed named)
    ≡ codes "queue-length"
      ∷ codes "queue-timeout"
      ∷ codes "queue-codel"
      ∷ codes "queue-adaptive-lifo"
      ∷ codes "gozero"
      ∷ codes "quarkus"
      ∷ []
command_names = refl
