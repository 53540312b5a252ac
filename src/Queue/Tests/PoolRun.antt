-- ===== src/Queue/Tests/PoolRun.antt =====
-- A Pool of one worker and one place: two tasks are sent, and a third waits for a slot.
use load_shedding.Prelude.{
  ◌⊎◌, if◌then◌else◌, ◌==◌, ◌≤◌, ℕ, ◌+◌, ◌≡◌, refl, inr, true, false, none, some, [], ◌∷◌, arith,
  length,
}
use load_shedding.Prelude.Bag.{Pick, count}
use load_shedding.Prelude.Int.{pos, ◌≤ℤ◌, ◌+ℤ◌}
use load_shedding.Prelude.Word.{wrap, add64}
use load_shedding.Queue.Gate.{Gate, CpuThresholdGate, cpu_threshold_gate, gate_for}
use load_shedding.Queue.Gate.Counted.{Counted, counted, issued, called}
use load_shedding.Queue.Task.{Waiting, wait_answer, Outcome}
use load_shedding.Queue.Pool.{Config, Job, new, pool_of, try_acquire, arrive, send, close}
use load_shedding.Queue.Pool.System.{
  System, start, arrived, offered, arrive_step, acquire_step, send_step, close_step, receive_step,
  Reach, init, next,
}
use load_shedding.Queue.Pool.Slots.{Reach-slots, in_flight}
use load_shedding.Queue.Promise.{Move, Moves, fresh_queue}
use load_shedding.Queue.Pool.Refines.{pool_Reach-Moves, view}
use load_shedding.Queue.Pool.Fate.{sent_task_fate, held, is_task}
use load_shedding.Queue.Pool.Tokens.{pool_callbacks_balanced, outstanding}
use load_shedding.Queue.Pool.Stop.{work_left, on_duty, Enabled, here, onward, pool_stop_returns}
use load_shedding.Queue.Pool.Wait.{ReachWaiting, init_waiting, next_waiting, pool_wait_answer}

abbrev gate : CpuThresholdGate
gate = record { threshold = pos 800; cpu_usage = λ _. pos 300; reads = 0; on = true }

abbrev config : Config (Counted CpuThresholdGate)
config = record {
  workers = pos 1;
  queue_capacity = pos 1;
  max_wait = pos 0;
  cpu_threshold = pos 0;
  gate = some (record { gate = gate; issued = 0; called = 0 });
}

abbrev ops : Gate (Counted CpuThresholdGate) (Unit {0})
ops = counted cpu_threshold_gate

abbrev Run : Type 0
Run = System (Counted CpuThresholdGate) (Unit {0})

abbrev job : ℕ → Job (Unit {0})
job task = record { task = task; token = some tt }

abbrev s0 : Run
s0 = start (pool_of config (λ _. pos 0) (pos 1) (pos 2))

abbrev s1 : Run
s1 = arrived 7 (arrive ops s0.pool) s0

-- The slot taken, and the task sent.
abbrev s2 : Run
s2 = record s1 { pool = record s1.pool { sem = 1 }; entering = []; holding = job 7 ∷ [] }

abbrev s3 : Run
s3 = offered (job 7) (send ops (job 7) s2.pool) (record s2 { holding = [] })

abbrev s4 : Run
s4 = arrived 9 (arrive ops s3.pool) s3

abbrev s5 : Run
s5 = record s4 { pool = record s4.pool { sem = 2 }; entering = []; holding = job 9 ∷ [] }

reach : Reach ops config s5
unfolding new arrive arrived try_acquire send offered wrap ◌+ℤ◌
reach =
    next
      (next
        (next
          (next (next (init (λ _. pos 0) refl) (arrive_step 7))
            (acquire_step (job 7) [] Pick.here refl))
          (send_step (job 7) [] Pick.here (inr refl)))
        (arrive_step 9))
      (acquire_step (job 9) [] Pick.here refl)

Reach-slots_example :
    (s5.pool.sem ≡ in_flight s5)
    × (pos (in_flight s5) ≤ℤ add64 (pos 1) (pos 1))
    × (s5.pool.active ≡ pos (length s5.executing + s5.ending))
    × (s5.pool.active ≤ℤ pos 1)
Reach-slots_example = Reach-slots ops config (omega arith) reach

-- The budget is used up, and the next request is refused.
full_example : (in_flight s5 ≡ 2) × (try_acquire s5.pool ≡ none)
unfolding arrive arrived try_acquire send offered gate_for
full_example = (refl, refl)

sent_task_fate_example : count 7 s5.admitted ≡ held (is_task 7) s5 + count 7 s5.ran
sent_task_fate_example = sent_task_fate ops 7 reach

pool_callbacks_balanced_example : issued s5.pool.gate ≡ called s5.pool.gate + outstanding s5
pool_callbacks_balanced_example = pool_callbacks_balanced cpu_threshold_gate gate refl reach

abbrev outcome : ℕ → Outcome
outcome _ = Outcome.panicked

-- The same run with a waiter for each task.
waits : (waiters : ℕ → Waiting) × ReachWaiting ops config s5 waiters
unfolding new arrive arrived try_acquire send offered wrap ◌+ℤ◌
waits = (
  _,
  next_waiting
      (next_waiting
        (next_waiting
          (next_waiting (next_waiting (init_waiting (λ _. pos 0) refl) (arrive_step 7))
            (acquire_step (job 7) [] Pick.here refl))
          (send_step (job 7) [] Pick.here (inr refl)))
        (arrive_step 9))
      (acquire_step (job 9) [] Pick.here refl),
)

pool_wait_answer_example :
    ((waits.0 7).closes ≤ 1)
    × (wait_answer (waits.0 7) ≡ (if held (is_task 7) s5 == 1 then none else some none))
    × (held (is_task 7) s5 + count 7 s5.ran ≡ 1)
unfolding arrive arrived send offered gate_for
pool_wait_answer_example = pool_wait_answer ops 7 waits.1 refl

-- The second task is sent.
pool_Reach-Moves_example :
    Move (view s5) (view (offered (job 9) (send ops (job 9) s5.pool) (record s5 { holding = [] })))
    × Moves (fresh_queue (pos 2) false) (view s5)
unfolding arrive arrived try_acquire send offered wrap ◌+ℤ◌ gate_for
pool_Reach-Moves_example = pool_Reach-Moves ops reach (send_step (job 9) [] Pick.here (inr refl))

-- The pool is closed, and the worker takes the task that was sent.
abbrev s6 : Run
s6 = record s5 { pool = close s5.pool }

abbrev s7 : Run
s7 = record s6 { pool = record s6.pool { tasks = [] }; idle = 0; taken = job 7 ∷ [] }

pool_stop_returns_example :
    (1 + work_left s7 ≤ work_left s6) × (((on_duty s7 ≡ 0) × (s7.pool.tasks ≡ [])) ⊎ Enabled ops s7)
unfolding new arrive arrived try_acquire send offered close gate_for wrap ◌+ℤ◌
pool_stop_returns_example =
    pool_stop_returns ops (next reach close_step) refl
      (onward here (receive_step (job 7) [] (omega arith) refl))
