-- ===== src/Queue/Pool/Refines.antt =====
-- queue/pool.go: each action of a Pool's threads is a move of the abstract task queue.
use load_shedding.Prelude.{
  ℕ, ◌+◌, ◌≡◌, refl, ap, inl, inr, true, false, some, List, [], ◌∷◌, ◌++◌, length, arith,
  Bool-cases,
}
use load_shedding.Prelude.Bag.{total, count, Pick-total}
use load_shedding.Prelude.Word.{add64}
use load_shedding.Prelude.Int.{ℤ, pos, ltb_ℤ}
use load_shedding.Queue.Gate.{Gate}
use load_shedding.Queue.Promise.Kept.{whole, Move-whole}
use load_shedding.Queue.Promise.{
  TaskQueue, Same, Same-refl, Move, rests, accepts, takes, finishes, closes, Moves, first, further,
  fresh_queue,
}
use load_shedding.Queue.Pool.{
  Pool, Config, Job, new, try_acquire, release, count_accepted, run_begin, run_end, close, arrive,
  shed, send, task_end, at_least,
}
use load_shedding.Queue.Pool.System.{
  System, start, arrived, offered, HasRoom, Step, arrive_step, acquire_step, shed_step, send_step,
  count_step, receive_step, exit_step, begin_step, end_step, leave_step, release_step, close_step,
  toggle_step, Reach, init, next,
}
use load_shedding.Queue.Pool.Fate.{is_task}

abbrev pub tasks_of : {D : Type 0} → List (Job D) → List ℕ
tasks_of [] = []
tasks_of (job ∷ rest) = job.task ∷ tasks_of rest

tasks_of-append :
    {D : Type 0} (xs : List (Job D)) (job : Job D)
    → tasks_of (xs ++ job ∷ []) ≡ tasks_of xs ++ job.task ∷ []
tasks_of-append [] job = refl
tasks_of-append (x ∷ xs) job = ap (x.task ∷◌) (tasks_of-append xs job)

length-tasks_of : {D : Type 0} (xs : List (Job D)) → length (tasks_of xs) ≡ length xs
length-tasks_of [] = refl
length-tasks_of (x ∷ xs) = omega (arith, length-tasks_of xs)

module _ {G D : Type 0} where
  -- The channel of tasks as the line, and what workers hold as being worked on.
  abbrev pub view : System G D → TaskQueue
  view s = record {
    line = tasks_of s.pool.tasks;
    closed = s.pool.closed;
    capacity = s.pool.capacity;
    lifo = false;
    accepted = λ a. count a s.admitted;
    working = λ a. total (is_task a) s.taken + total (is_task a) s.executing;
    finished = λ a. count a s.ran;
  }

  module _ (ops : Gate G D) where
    arrived-Same :
        (task : ℕ) (s : System G D) → Same (view s) (view (arrived task (arrive ops s.pool) s))
    unfolding arrive arrived
    arrived-Same task s = record {
      line_same = ground arith;
      closed_same = ground arith;
      capacity_same = ground arith;
      lifo_same = refl;
      accepted_same = λ a. ground arith;
      working_same = λ a. ground arith;
      finished_same = λ a. ground arith;
    }

    offered-Move :
        (job : Job D) (rest : List (Job D)) (s : System G D)
        → HasRoom s.pool
        → Move (view s) (view (offered job (send ops job s.pool) (record s { holding = rest })))
    unfolding send offered release
    offered-Move job rest s h = elim (Bool-cases s.pool.closed) [
      | inl c ↦ rests (record {
        line_same = ground arith;
        closed_same = ground arith;
        capacity_same = ground arith;
        lifo_same = refl;
        accepted_same = λ a. ground arith;
        working_same = λ a. ground arith;
        finished_same = λ a. ground arith;
      })
      | inr c ↦
          let room : ltb_ℤ (pos (length s.pool.tasks)) s.pool.capacity ≡ true = ground arith in
          accepts job.task c (rw (length-tasks_of s.pool.tasks) room) (record {
            line_same = ground (arith, tasks_of-append s.pool.tasks job);
            closed_same = ground arith;
            capacity_same = ground arith;
            lifo_same = refl;
            accepted_same = λ a. ground arith;
            working_same = λ a. ground arith;
            finished_same = λ a. ground arith;
          })
    ]

    Step-Move : {s t : System G D} → Step ops s t → Move (view s) (view t)
    unfolding try_acquire shed count_accepted release task_end run_begin run_end close
    Step-Move {s} (arrive_step task) = rests (arrived-Same task s)
    Step-Move (acquire_step job rest p e) = rests (record {
      line_same = ground arith;
      closed_same = ground arith;
      capacity_same = ground arith;
      lifo_same = refl;
      accepted_same = λ a. refl;
      working_same = λ a. refl;
      finished_same = λ a. refl;
    })
    Step-Move (shed_step job rest p h) = rests (Same-refl _)
    Step-Move {s} (send_step job rest p h) = offered-Move job rest s h
    Step-Move (count_step h) = rests (Same-refl _)
    Step-Move (receive_step job rest h e) =
        takes job.task (tasks_of rest) (inl (ap tasks_of e)) (record {
          line_same = refl;
          closed_same = refl;
          capacity_same = refl;
          lifo_same = refl;
          accepted_same = λ a. refl;
          working_same = λ a. omega arith;
          finished_same = λ a. refl;
        })
    Step-Move (exit_step h e c) = rests (Same-refl _)
    Step-Move (begin_step job rest p) = rests (record {
      line_same = refl;
      closed_same = refl;
      capacity_same = refl;
      lifo_same = refl;
      accepted_same = λ a. refl;
      working_same = λ a. ground (arith, Pick-total (is_task a) p);
      finished_same = λ a. refl;
    })
    Step-Move (end_step job outcome rest p) =
        finishes job.task _ (λ a. ground (arith, Pick-total (is_task a) p)) (Same-refl _)
    Step-Move (leave_step h) = rests (Same-refl _)
    Step-Move (release_step h) = rests (Same-refl _)
    Step-Move close_step = closes (Same-refl _)
    Step-Move (toggle_step on) = rests (Same-refl _)

    init-Same :
        (cfg : Config G) (usage : ℕ → ℤ) {p : Pool G D}
        → new cfg usage ≡ some p
        → Same
            (fresh_queue
              (add64 (at_least (pos 1) cfg.workers) (at_least (pos 0) cfg.queue_capacity))
              false)
            (view (start p))
    unfolding new
    init-Same cfg usage e = record {
      line_same = ground arith;
      closed_same = ground arith;
      capacity_same = ground arith;
      lifo_same = refl;
      accepted_same = λ a. refl;
      working_same = λ a. refl;
      finished_same = λ a. refl;
    }

    history-Moves :
        {cfg : Config G} {s : System G D}
        → Reach ops cfg s
        → Moves
            (fresh_queue
              (add64 (at_least (pos 1) cfg.workers) (at_least (pos 0) cfg.queue_capacity))
              false)
            (view s)
    history-Moves {cfg} (init usage e) = first (init-Same cfg usage e)
    history-Moves (next r st) = further (history-Moves r) (Step-Move st)

    -- Each action of a thread of a Pool, in every state that a new pool reaches, is one move of the abstract
    -- queue from what is seen of the pool before to what is seen of it after, or changes nothing there; and
    -- the history so far is moves from an empty open queue with room for Workers + QueueCapacity (an int
    -- sum) tasks. So a task is sent just where it goes to the back of a line that is open and not full;
    -- only the oldest task is taken; what is taken is worked on, and what was worked on is finished once.
    pub pool_Reach-Moves :
        {cfg : Config G} {s t : System G D}
        → Reach ops cfg s
        → Step ops s t
        → Move (view s) (view t)
          × Moves
              (fresh_queue
                (add64 (at_least (pos 1) cfg.workers) (at_least (pos 0) cfg.queue_capacity))
                false)
              (view s)
    pool_Reach-Moves r st = (Step-Move st, history-Moves r)

    -- Once closed, the pool stays closed and neither gains nor loses a task, whatever its threads do.
    stopped_keeps :
        (a : ℕ) {s t : System G D}
        → Step ops s t
        → s.pool.closed ≡ true
        → (t.pool.closed ≡ true) × (whole a (view t) ≡ whole a (view s))
    stopped_keeps a st = Move-whole a (Step-Move st)
