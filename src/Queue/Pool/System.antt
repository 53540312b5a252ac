-- ===== src/Queue/Pool/System.antt =====
-- queue/pool.go: a Pool with its submitters and its workers, interleaved in any order. A thread is
-- known by where it stands between two atomic actions.
use load_shedding.Prelude.{
  ℕ, ◌+◌, ◌-◌, ◌<◌, ◌≡◌, ◌⊎◌, Bool, true, Option, none, some, List, [], ◌∷◌, length,
}
use load_shedding.Prelude.Bag.{Pick}
use load_shedding.Prelude.Int.{ℤ, pos, pos_part, ltb_ℤ}
use load_shedding.Queue.Gate.{Gate, set_gate_enabled}
use load_shedding.Queue.Task.{SubmitError, Outcome}
use load_shedding.Queue.Pool.{
  Pool, Config, Job, new, try_acquire, release, count_accepted, run_begin, run_end, close, arrive,
  shed, send, task_end,
}

pub record System (G D : Type 0) : Type 0 where
  pub pool : Pool G D
  -- Submitters that the gate let in, those that hold a slot, and those that have sent their task.
  pub entering : List (Job D)
  pub holding : List (Job D)
  pub sent : ℕ
  -- Workers at the receive, and those that have returned.
  pub idle : ℕ
  pub exited : ℕ
  -- Workers with a task, and inside it.
  pub taken : List (Job D)
  pub executing : List (Job D)
  -- Workers before `active.Add(-1)`, and before `<-p.sem`.
  pub ending : ℕ
  pub releasing : ℕ
  -- The tasks sent so far, and those that have run.
  pub admitted : List ℕ
  pub ran : List ℕ

module _ {G D : Type 0} where
  abbrev pub start : Pool G D → System G D
  start p = record {
    pool = p;
    entering = [];
    holding = [];
    sent = 0;
    idle = pos_part p.workers;
    exited = 0;
    taken = [];
    executing = [];
    ending = 0;
    releasing = 0;
    admitted = [];
    ran = [];
  }

  -- What a submitter does with the outcome of its action.
  unfoldable pub arrived : ℕ → Pool G D × Option (Option D) → System G D → System G D
  arrived task (p, none) s = record s { pool = p }
  arrived task (p, some token) s = record s {
    pool = p;
    entering = record { task = task; token = token } ∷ s.entering;
  }

  unfoldable pub offered : Job D → Pool G D × Option SubmitError → System G D → System G D
  offered job (p, none) s = record s {
    pool = p;
    admitted = job.task ∷ s.admitted;
    sent = s.sent + 1;
  }
  offered job (p, some _) s = record s { pool = p }

  -- The send into the channel of tasks goes on at once.
  abbrev pub HasRoom : Pool G D → Type 0
  HasRoom p = (p.closed ≡ true) ⊎ (ltb_ℤ (pos (length p.tasks)) p.capacity ≡ true)

  module _ (ops : Gate G D) where
    -- One action of one thread.
    pub data Step (s : System G D) : System G D → Type 0 where
      arrive_step : (task : ℕ) → Step s (arrived task (arrive ops s.pool) s)
      acquire_step :
          (job : Job D) (rest : List (Job D)) {p : Pool G D}
          → Pick job s.entering rest
          → try_acquire s.pool ≡ some p
          → Step s (record s { pool = p; entering = rest; holding = job ∷ s.holding })
      -- Without a wait the slot is refused at once; with one, when the timer fires.
      shed_step :
          (job : Job D) (rest : List (Job D))
          → Pick job s.entering rest
          → (try_acquire s.pool ≡ none) ⊎ (ltb_ℤ (pos 0) s.pool.max_wait ≡ true)
          → Step s (record s { pool = (shed ops job.token s.pool).0; entering = rest })
      send_step :
          (job : Job D) (rest : List (Job D))
          → Pick job s.holding rest
          → HasRoom s.pool
          → Step s (offered job (send ops job s.pool) (record s { holding = rest }))
      count_step :
          0 < s.sent → Step s (record s { pool = count_accepted s.pool; sent = s.sent - 1 })
      receive_step :
          (job : Job D) (rest : List (Job D))
          → 0 < s.idle
          → s.pool.tasks ≡ job ∷ rest
          → Step s (record s {
            pool = record s.pool { tasks = rest };
            idle = s.idle - 1;
            taken = job ∷ s.taken;
          })
      exit_step :
          0 < s.idle
          → s.pool.tasks ≡ []
          → s.pool.closed ≡ true
          → Step s (record s { idle = s.idle - 1; exited = s.exited + 1 })
      begin_step :
          (job : Job D) (rest : List (Job D))
          → Pick job s.taken rest
          → Step s
              (record s { pool = run_begin s.pool; taken = rest; executing = job ∷ s.executing })
      end_step :
          (job : Job D) (outcome : Outcome) (rest : List (Job D))
          → Pick job s.executing rest
          → Step s (record s {
            pool = task_end ops job outcome s.pool;
            executing = rest;
            ran = job.task ∷ s.ran;
            ending = s.ending + 1;
          })
      leave_step :
          0 < s.ending
          → Step s (record s {
            pool = run_end s.pool;
            ending = s.ending - 1;
            releasing = s.releasing + 1;
          })
      release_step :
          0 < s.releasing
          → Step s
              (record s { pool = release s.pool; releasing = s.releasing - 1; idle = s.idle + 1 })
      close_step : Step s (record s { pool = close s.pool })
      toggle_step :
          (on : Bool)
          → Step s
              (record s { pool = record s.pool { gate = set_gate_enabled ops on s.pool.gate } })

    pub data Reach (cfg : Config G) : System G D → Type 0 where
      init : (usage : ℕ → ℤ) {p : Pool G D} → new cfg usage ≡ some p → Reach cfg (start p)
      next : {s t : System G D} → Reach cfg s → Step s t → Reach cfg t
