-- ===== src/Queue/Tests/CodelRun.antt =====
-- A CodelPool of one worker and two places: two tasks come in, one is run.
use load_shedding.Prelude.{ℕ, ◌+◌, ◌≡◌, refl, true, false, some, [], arith, length}
use load_shedding.Prelude.Bag.{Pick, count}
use load_shedding.Prelude.Int.{pos, ◌≤ℤ◌, ◌+ℤ◌, ◌-ℤ◌}
use load_shedding.Prelude.Time.{sub}
use load_shedding.Prelude.Float.Fixed.{fixed}
use load_shedding.Queue.Gate.{Gate, CpuThresholdGate, cpu_threshold_gate}
use load_shedding.Queue.Gate.Counted.{Counted, counted, issued, called}
use load_shedding.Queue.Task.{Outcome}
use load_shedding.Queue.Codel.{CodelConfig, new_codel, arrive, enter, worker_lock}
use load_shedding.Queue.Codel.Law.{should_drop}
use load_shedding.Queue.Codel.System.{
  System, start, arrived, entered, worked, arrive_step, enter_step, worker_step, Reach, init, next,
}
use load_shedding.Queue.Promise.{Move, Moves, fresh_queue}
use load_shedding.Queue.Codel.Refines.{Reach-Moves, view}
use load_shedding.Queue.Codel.Bounds.{queue_bounded}
use load_shedding.Queue.Codel.Fate.{accepted_task_fate, held, is_task}
use load_shedding.Queue.Codel.Tokens.{callbacks_balanced, outstanding}
use load_shedding.Queue.Codel.Order.{worker_lock_order, Taken}

abbrev gate : CpuThresholdGate
gate = record { threshold = pos 800; cpu_usage = λ _. pos 300; reads = 0; on = true }

abbrev config : CodelConfig (Counted CpuThresholdGate)
config = record {
  workers = pos 1;
  capacity = pos 2;
  target = pos 0;
  interval = pos 0;
  adaptive_lifo = false;
  cpu_threshold = pos 0;
  gate = some (record { gate = gate; issued = 0; called = 0 });
}

abbrev ops : Gate (Counted CpuThresholdGate) (Unit {0})
ops = counted cpu_threshold_gate

abbrev Run : Type 0
Run = System (Counted CpuThresholdGate) (Unit {0})

abbrev s0 : Run
s0 = start (new_codel config (λ _. pos 0))

abbrev s1 : Run
s1 = arrived 7 (arrive ops s0.pool) s0

abbrev s2 : Run
s2 = entered 7 (enter ops (pos 50) 7 (some tt) s1.pool) (record s1 { entering = [] })

abbrev s3 : Run
s3 = arrived 9 (arrive ops s2.pool) s2

abbrev s4 : Run
s4 = entered 9 (enter ops (pos 60) 9 (some tt) s3.pool) (record s3 { entering = [] })

abbrev s5 : Run
s5 = worked (worker_lock fixed (pos 70) s4.pool) s4

reach4 : Reach fixed ops config s4
unfolding new_codel arrive arrived enter entered
reach4 =
    next
      (next
        (next (next (init (λ _. pos 0)) (arrive_step 7))
          (enter_step (pos 50) 7 (some tt) [] Pick.here))
        (arrive_step 9))
      (enter_step (pos 60) 9 (some tt) [] Pick.here)

reach : Reach fixed ops config s5
unfolding new_codel arrive arrived enter entered worker_lock worked
reach = next reach4 (worker_step (pos 70) (omega arith))

queue_bounded_example :
    (pos (length s5.pool.buf) ≤ℤ pos 2)
    × (s5.pool.active ≡ pos (length s5.executing + s5.ending))
    × (s5.pool.active ≤ℤ pos 1)
queue_bounded_example = queue_bounded fixed ops config (omega arith) reach

accepted_task_fate_example :
    count 9 s5.admitted ≡ held (is_task 9) s5 + count 9 s5.ran + count 9 s5.shed
accepted_task_fate_example = accepted_task_fate fixed ops 9 reach

callbacks_balanced_example : issued s5.pool.gate ≡ called s5.pool.gate + outstanding s5
callbacks_balanced_example = callbacks_balanced fixed cpu_threshold_gate gate refl reach

-- The state in numbers: one task queued, one with the worker, two callbacks out.
run_example :
    (length s5.pool.buf ≡ 1)
    × (length s5.serving ≡ 1)
    × (issued s5.pool.gate ≡ 2)
    × (called s5.pool.gate ≡ 0)
unfolding new_codel arrive arrived enter entered worker_lock worked should_drop sub ◌-ℤ◌ ◌+ℤ◌
run_example = (refl, refl, refl, refl)

worker_lock_order_example :
    Taken s4.pool.buf (worker_lock fixed (pos 70) s4.pool).0 (worker_lock fixed (pos 70) s4.pool).1
worker_lock_order_example = worker_lock_order fixed (pos 70) s4.pool

abbrev outcome : ℕ → Outcome
outcome _ = Outcome.panicked

-- The worker takes the older task.
Reach-Moves_example :
    Move (view s4) (view (worked (worker_lock fixed (pos 70) s4.pool) s4))
    × Moves (fresh_queue (pos 2) false) (view s4)
unfolding new_codel arrive arrived enter entered
Reach-Moves_example = Reach-Moves fixed ops reach4 (worker_step (pos 70) (omega arith))
