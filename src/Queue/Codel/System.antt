-- ===== src/Queue/Codel/System.antt =====
-- queue/codel.go: a CodelPool with its submitters and its workers, interleaved in any order. A thread
-- is known by where it stands between two critical sections.
use load_shedding.Prelude.{ℕ, ◌+◌, ◌-◌, ◌<◌, Bool, Option, none, some, List, [], ◌∷◌}
use load_shedding.Prelude.Bag.{Pick}
use load_shedding.Prelude.Int.{ℤ, pos_part}
use load_shedding.Prelude.Time.{Time}
use load_shedding.Prelude.Float.{Float64}
use load_shedding.Queue.Gate.{Gate, set_gate_enabled}
use load_shedding.Queue.Task.{SubmitError, Outcome}
use load_shedding.Queue.Codel.{
  CodelPool, CodelConfig, Item, Decision, waits, exits, drops, serves, new_codel, worker_lock,
  arrive, enter, drop_callback, task_end, run_begin, run_end, close,
}

pub record System (G D : Type 0) : Type 0 where
  pub pool : CodelPool G D
  -- Submitters that the gate let in and that have not taken the lock.
  pub entering : List (ℕ × Option D)
  -- Workers at the top of their loop, and those that have returned.
  pub idle : ℕ
  pub exited : ℕ
  -- Workers about to call `onDrop`, about to run a task, and inside a task.
  pub falling : List (Item D)
  pub serving : List (Item D)
  pub executing : List (Item D)
  -- Workers whose task is over, before `active.Add(-1)`.
  pub ending : ℕ
  -- The tasks accepted so far, those that ran, and those whose callback was called.
  pub admitted : List ℕ
  pub ran : List ℕ
  pub shed : List ℕ

module _ {G D : Type 0} where
  abbrev pub start : CodelPool G D → System G D
  start p = record {
    pool = p;
    entering = [];
    idle = pos_part p.workers;
    exited = 0;
    falling = [];
    serving = [];
    executing = [];
    ending = 0;
    admitted = [];
    ran = [];
    shed = [];
  }

  -- What each thread does with the outcome of its critical section.
  unfoldable pub arrived : ℕ → CodelPool G D × Option (Option D) → System G D → System G D
  arrived task (p, none) s = record s { pool = p }
  arrived task (p, some token) s = record s { pool = p; entering = (task, token) ∷ s.entering }

  unfoldable pub entered : ℕ → CodelPool G D × Option SubmitError → System G D → System G D
  entered task (p, none) s = record s { pool = p; admitted = task ∷ s.admitted }
  entered task (p, some _) s = record s { pool = p }

  unfoldable pub worked : CodelPool G D × Decision D → System G D → System G D
  worked (p, waits) s = record s { pool = p }
  worked (p, exits) s = record s { pool = p; idle = s.idle - 1; exited = s.exited + 1 }
  worked (p, drops it) s = record s { pool = p; idle = s.idle - 1; falling = it ∷ s.falling }
  worked (p, serves it) s = record s { pool = p; idle = s.idle - 1; serving = it ∷ s.serving }

  module _ (fl : Float64) (ops : Gate G D) where
    -- One action of one thread: a submitter passes the gate, then takes the lock; a worker takes the
    -- lock, then calls the callback or runs the task; another thread closes the pool or toggles the
    -- gate.
    pub data Step (s : System G D) : System G D → Type 0 where
      arrive_step : (task : ℕ) → Step s (arrived task (arrive ops s.pool) s)
      enter_step :
          (now : Time) (task : ℕ) (token : Option D) (rest : List (ℕ × Option D))
          → Pick (task, token) s.entering rest
          → Step s (entered task (enter ops now task token s.pool) (record s { entering = rest }))
      worker_step : (now : Time) → 0 < s.idle → Step s (worked (worker_lock fl now s.pool) s)
      drop_step :
          (it : Item D) (rest : List (Item D))
          → Pick it s.falling rest
          → Step s (record s {
            pool = drop_callback ops it s.pool;
            falling = rest;
            shed = it.task ∷ s.shed;
            idle = s.idle + 1;
          })
      begin_step :
          (it : Item D) (rest : List (Item D))
          → Pick it s.serving rest
          → Step s
              (record s { pool = run_begin s.pool; serving = rest; executing = it ∷ s.executing })
      end_step :
          (it : Item D) (outcome : Outcome) (rest : List (Item D))
          → Pick it s.executing rest
          → Step s (record s {
            pool = task_end ops it outcome s.pool;
            executing = rest;
            ran = it.task ∷ s.ran;
            ending = s.ending + 1;
          })
      leave_step :
          0 < s.ending
          → Step s (record s { pool = run_end s.pool; ending = s.ending - 1; idle = s.idle + 1 })
      close_step : Step s (record s { pool = close s.pool })
      toggle_step :
          (on : Bool)
          → Step s
              (record s { pool = record s.pool { gate = set_gate_enabled ops on s.pool.gate } })

    pub data Reach (cfg : CodelConfig G) : System G D → Type 0 where
      init : (usage : ℕ → ℤ) → Reach cfg (start (new_codel cfg usage))
      next : {s t : System G D} → Reach cfg s → Step s t → Reach cfg t
