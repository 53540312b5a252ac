-- ===== src/Queue/Tests/WaitRun.antt =====
-- Two callers of `SubmitWait` of a CodelPool, of which one has its answer.
use load_shedding.Prelude.{
  ℕ, ◌+◌, ◌≤◌, ◌≡◌, refl, false, not, none, some, [], ◌∷◌, arith, if◌then◌else◌, ◌==◌, ltb, ◌&&◌,
}
use load_shedding.Prelude.Bag.{Pick, count}
use load_shedding.Prelude.Int.{pos, ◌+ℤ◌, ◌-ℤ◌}
use load_shedding.Prelude.Word.{wrap}
use load_shedding.Prelude.Time.{sub}
use load_shedding.Prelude.Float.Fixed.{fixed}
use load_shedding.Http.{Script, header, returned}
use load_shedding.Http.Writer.{sent_status}
use load_shedding.Queue.Gate.{CpuThresholdGate, cpu_threshold_gate, gate_for, gate_allow}
use load_shedding.Queue.Task.{
  queue_full, task_dropped, Outcome, success_of, run_safe, Waiting, wait_answer,
}
use load_shedding.Queue.Codel.{
  CodelConfig, Item, new_codel, arrive, enter, worker_lock, run_begin, task_end,
}
use load_shedding.Queue.Codel.Law.{should_drop}
use load_shedding.Queue.Codel.System.{
  System, start, arrived, entered, worked, arrive_step, enter_step, worker_step, begin_step,
  end_step,
}
use load_shedding.Queue.Codel.Fate.{held, is_task}
use load_shedding.Queue.Codel.Wait.{ReachWaiting, init_waiting, next_waiting, submit_wait_answer}
use load_shedding.Queue.Handler.{run_handler, finish_handler}
use load_shedding.Queue.Handler.Response.{finish_handler-run_handler}

abbrev config : CodelConfig CpuThresholdGate
config = record {
  workers = pos 1;
  capacity = pos 2;
  target = pos 0;
  interval = pos 0;
  adaptive_lifo = false;
  cpu_threshold = pos 0;
  gate = none;
}

abbrev Run : Type 0
Run = System CpuThresholdGate (Unit {0})

abbrev s0 : Run
s0 = start (new_codel config (λ _. pos 0))

abbrev s1 : Run
s1 = arrived 7 (arrive cpu_threshold_gate s0.pool) s0

abbrev s2 : Run
s2 = entered 7 (enter cpu_threshold_gate (pos 50) 7 none s1.pool) (record s1 { entering = [] })

abbrev s3 : Run
s3 = worked (worker_lock fixed (pos 70) s2.pool) s2

abbrev item : Item (Unit {0})
item = record { task = 7; token = none; enq = pos 50 }

abbrev s4 : Run
s4 = record s3 { pool = run_begin s3.pool; serving = []; executing = item ∷ [] }

abbrev s5 : Run
s5 = record s4 {
  pool = task_end cpu_threshold_gate item Outcome.panicked s4.pool;
  executing = [];
  ran = 7 ∷ [];
  ending = 1;
}

abbrev Waits : Run → (ℕ → Waiting) → Type 0
Waits = ReachWaiting fixed cpu_threshold_gate config

reach : (waiters : ℕ → Waiting) × Waits s5 waiters
unfolding new_codel arrive arrived enter entered worker_lock worked should_drop gate_for gate_allow
    sub ◌+ℤ◌ ◌-ℤ◌ wrap
reach = (
  _,
  next_waiting
      (next_waiting
        (next_waiting
          (next_waiting (next_waiting (init_waiting (λ _. pos 0)) (arrive_step 7))
            (enter_step (pos 50) 7 none [] Pick.here))
          (worker_step (pos 70) (omega arith)))
        (begin_step item [] Pick.here))
      (end_step item Outcome.panicked [] Pick.here),
)

submit_wait_answer_example :
    ((reach.0 7).closes ≤ 1)
    × (wait_answer (reach.0 7) ≡ (
        if held (is_task 7) s5 == 1
        then none
        else some (if count 7 s5.ran == 1 then none else some task_dropped)))
    × (held (is_task 7) s5 + count 7 s5.ran + count 7 s5.shed ≡ 1)
unfolding new_codel arrive arrived enter entered worker_lock worked should_drop gate_for gate_allow
    sub ◌+ℤ◌ ◌-ℤ◌ wrap
submit_wait_answer_example = submit_wait_answer fixed cpu_threshold_gate 7 reach.1 refl

abbrev script : Script
script = record { calls = header 502 ∷ []; ending = returned }

finish_handler-run_handler_example :
    let (outcome, served) = run_handler script in
    let answer = finish_handler (some queue_full) served in
    (run_safe outcome ≡ false)
    × (sent_status answer.response ≡ 503)
    × (answer.panics ≡ false)
    × (success_of outcome ≡ ltb (sent_status served.response) 500 && not served.panics)
finish_handler-run_handler_example = finish_handler-run_handler script (some queue_full)
