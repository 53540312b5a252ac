-- ===== src/Queue/Tests/WakeRun.antt =====
-- Two workers of a CodelPool fall asleep, and a submission wakes one of them.
use load_shedding.Prelude.{refl, ◌+◌, ◌≤◌, ◌≡◌, ℕ, ◌<◌, ◌⊎◌, false, none, [], arith}
use load_shedding.Prelude.Bag.{Pick}
use load_shedding.Prelude.Time.{sub}
use load_shedding.Prelude.Int.{◌+ℤ◌, ◌-ℤ◌, pos}
use load_shedding.Prelude.Float.Fixed.{fixed}
use load_shedding.Queue.Gate.{CpuThresholdGate, cpu_threshold_gate, gate_for, gate_allow}
use load_shedding.Queue.Codel.{CodelConfig, new_codel, arrive, enter, worker_lock, close}
use load_shedding.Queue.Codel.Law.{should_drop}
use load_shedding.Queue.Codel.System.{
  System, start, arrived, entered, worked, arrive_step, enter_step, worker_step, close_step,
}
use load_shedding.Queue.Codel.Stop.{work_left, Enabled, here, onward, stop_returns}
use load_shedding.Queue.Codel.Wakeup.{
  ReachAsleep, init_awake, next_asleep, asleep_after, on_duty, no_lost_wakeup,
}

abbrev config : CodelConfig CpuThresholdGate
config = record {
  workers = pos 2;
  capacity = pos 2;
  target = pos 0;
  interval = pos 0;
  adaptive_lifo = false;
  cpu_threshold = pos 0;
  gate = none;
}

abbrev Run : Type 0
Run = System CpuThresholdGate (Unit {0})

abbrev s0 : Run
s0 = start (new_codel config (λ _. pos 0))

abbrev s1 : Run
s1 = worked (worker_lock fixed (pos 10) s0.pool) s0

abbrev s2 : Run
s2 = worked (worker_lock fixed (pos 20) s1.pool) s1

abbrev s3 : Run
s3 = arrived 7 (arrive cpu_threshold_gate s2.pool) s2

abbrev s4 : Run
s4 = entered 7 (enter cpu_threshold_gate (pos 50) 7 none s3.pool) (record s3 { entering = [] })

reach : ReachAsleep fixed cpu_threshold_gate config s4 1
unfolding new_codel arrive arrived enter entered worker_lock worked asleep_after gate_for gate_allow
reach =
    next_asleep
      (next_asleep
        (next_asleep
          (next_asleep (init_awake (λ _. pos 0)) (worker_step (pos 10) (omega arith)) (omega arith))
          (worker_step (pos 20) (omega arith)) (omega arith))
        (arrive_step 7) tt)
      (enter_step (pos 50) 7 none [] Pick.here) tt

no_lost_wakeup_example :
    ((s4.pool.buf ≡ []) ⊎ (1 < on_duty s4)) × ((s4.pool.closed ≡ false) ⊎ (◌≡◌ {A = ℕ} 1 0))
no_lost_wakeup_example = no_lost_wakeup fixed cpu_threshold_gate reach

-- The pool is closed, and a worker takes the task.
abbrev s5 : Run
s5 = record s4 { pool = close s4.pool }

abbrev s6 : Run
s6 = worked (worker_lock fixed (pos 60) s5.pool) s5

closed : ReachAsleep fixed cpu_threshold_gate config s5 0
unfolding asleep_after
closed = next_asleep reach close_step tt

stop_returns_example :
    (1 + work_left s6 ≤ work_left s5)
    × (((on_duty s6 ≡ 0) × (s6.pool.buf ≡ [])) ⊎ Enabled fixed cpu_threshold_gate s6 0)
unfolding new_codel arrive arrived enter entered worker_lock worked asleep_after gate_for gate_allow
    close should_drop sub ◌+ℤ◌ ◌-ℤ◌
stop_returns_example =
    stop_returns fixed cpu_threshold_gate closed refl
      (onward here (worker_step (pos 60) (omega arith)) (omega arith))
