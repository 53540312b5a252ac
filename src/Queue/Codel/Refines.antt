-- ===== src/Queue/Codel/Refines.antt =====
-- queue/codel.go: each action of a CodelPool's threads is a move of the abstract task queue.
use load_shedding.Prelude.{
  ℕ, ◌+◌, ◌≡◌, refl, ap, ◌⊎◌, inl, inr, true, Option, List, [], ◌∷◌, ◌++◌, length, arith,
  Bool-cases, ◌∙◌, sym,
}
use load_shedding.Prelude.Bag.{total, count, Pick-total}
use load_shedding.Prelude.Int.{pos, ltb_ℤ}
use load_shedding.Prelude.Time.{Time}
use load_shedding.Prelude.Float.{Float64}
use load_shedding.Queue.Gate.{Gate}
use load_shedding.Queue.Promise.Kept.{whole, Move-whole}
use load_shedding.Queue.Promise.{
  TaskQueue, Same, Same-refl, Move, rests, accepts, takes, finishes, closes, Moves, first, further,
  fresh_queue,
}
use load_shedding.Queue.Codel.{
  CodelPool, CodelConfig, Item, Decision, waits, exits, drops, serves, new_codel, worker_lock,
  arrive, enter, drop_callback, task_end, run_begin, run_end, close, at_least_one, serve,
  worker_from,
}
use load_shedding.Queue.Codel.System.{
  System, arrived, entered, worked, Step, arrive_step, enter_step, worker_step, drop_step,
  begin_step, end_step, leave_step, close_step, toggle_step, Reach, init, next,
}
use load_shedding.Queue.Codel.Fate.{is_task}
use load_shedding.Queue.Codel.Order.{Taken, worker_lock_order}

abbrev pub tasks_of : {D : Type 0} → List (Item D) → List ℕ
tasks_of [] = []
tasks_of (it ∷ rest) = it.task ∷ tasks_of rest

tasks_of-append :
    {D : Type 0} (xs : List (Item D)) (it : Item D)
    → tasks_of (xs ++ it ∷ []) ≡ tasks_of xs ++ it.task ∷ []
tasks_of-append [] it = refl
tasks_of-append (x ∷ xs) it = ap (x.task ∷◌) (tasks_of-append xs it)

length-tasks_of : {D : Type 0} (xs : List (Item D)) → length (tasks_of xs) ≡ length xs
length-tasks_of [] = refl
length-tasks_of (x ∷ xs) = omega (arith, length-tasks_of xs)

module _ {G D : Type 0} where
  -- The queue as its line, what workers hold as being worked on, and what they have run or told the
  -- callback of as finished.
  abbrev pub view : System G D → TaskQueue
  view s = record {
    line = tasks_of s.pool.buf;
    closed = s.pool.closed;
    capacity = s.pool.capacity;
    lifo = s.pool.adaptive_lifo;
    accepted = λ a. count a s.admitted;
    working = λ a.
        total (is_task a) s.falling + total (is_task a) s.serving + total (is_task a) s.executing;
    finished = λ a. count a s.ran + count a s.shed;
  }

  module _ (fl : Float64) (ops : Gate G D) where
    arrived-Move :
        (task : ℕ) (s : System G D) → Same (view s) (view (arrived task (arrive ops s.pool) s))
    unfolding arrive arrived
    arrived-Move task s = record {
      line_same = ground arith;
      closed_same = ground arith;
      capacity_same = ground arith;
      lifo_same = ground arith;
      accepted_same = λ a. ground arith;
      working_same = λ a. ground arith;
      finished_same = λ a. ground arith;
    }

    entered-Move :
        (now : Time) (task : ℕ) (token : Option D) (rest : List (ℕ × Option D)) (s : System G D)
        → Move
            (view s)
            (view (entered task (enter ops now task token s.pool) (record s { entering = rest })))
    unfolding enter entered
    entered-Move now task token rest s = elim (Bool-cases s.pool.closed) [
      | inl c ↦ rests (record {
        line_same = ground arith;
        closed_same = ground arith;
        capacity_same = ground arith;
        lifo_same = ground arith;
        accepted_same = λ a. ground arith;
        working_same = λ a. ground arith;
        finished_same = λ a. ground arith;
      })
      | inr c ↦ elim (Bool-cases (ltb_ℤ (pos (length s.pool.buf)) s.pool.capacity)) [
        | inl room ↦ accepts task c (rw (length-tasks_of s.pool.buf) room) (record {
          line_same = ground (
            arith,
            tasks_of-append s.pool.buf (record { task = task; token = token; enq = now }),
          );
          closed_same = ground arith;
          capacity_same = ground arith;
          lifo_same = ground arith;
          accepted_same = λ a. ground arith;
          working_same = λ a. ground arith;
          finished_same = λ a. ground arith;
        })
        | inr full ↦ rests (record {
          line_same = ground arith;
          closed_same = ground arith;
          capacity_same = ground arith;
          lifo_same = ground arith;
          accepted_same = λ a. ground arith;
          working_same = λ a. ground arith;
          finished_same = λ a. ground arith;
        })
      ]
    ]

    served_end :
        (s : System G D) (q : CodelPool G D) (it : Item D)
        → q.adaptive_lifo ≡ s.pool.adaptive_lifo
        → Taken s.pool.buf q (serves it)
        → (tasks_of s.pool.buf ≡ it.task ∷ tasks_of q.buf)
          ⊎ (s.pool.adaptive_lifo ≡ true) × (tasks_of s.pool.buf ≡ tasks_of q.buf ++ it.task ∷ [])
    served_end s q it k (inl t) = inl (ap tasks_of t.1)
    served_end s q it k (inr t) = inr (ground arith, ap tasks_of t.1 ∙ tasks_of-append q.buf it)

    rested-Same :
        (s : System G D) (q : CodelPool G D)
        → (q.closed ≡ s.pool.closed)
          × (q.capacity ≡ s.pool.capacity)
          × (q.adaptive_lifo ≡ s.pool.adaptive_lifo)
        → tasks_of q.buf ≡ tasks_of s.pool.buf
        → Same (view s) (view (record s { pool = q }))
    rested-Same s q k e = record {
      line_same = e;
      closed_same = k.0;
      capacity_same = k.1;
      lifo_same = k.2;
      accepted_same = λ a. refl;
      working_same = λ a. refl;
      finished_same = λ a. refl;
    }

    -- The worker's decision, by what it says of the queue.
    worked-Move :
        (s : System G D) (q : CodelPool G D) (d : Decision D)
        → (q.closed ≡ s.pool.closed)
          × (q.capacity ≡ s.pool.capacity)
          × (q.adaptive_lifo ≡ s.pool.adaptive_lifo)
        → Taken s.pool.buf q d
        → Move (view s) (view (worked (q, d) s))
    unfolding worked
    worked-Move s q waits k t = rests (rested-Same s q k (ap tasks_of (t.1 ∙ sym t.0)))
    worked-Move s q exits k t = rests (rested-Same s q k (ap tasks_of (t.1 ∙ sym t.0)))
    worked-Move s q (drops it) k t = takes it.task (tasks_of q.buf) (inl (ap tasks_of t)) (record {
      line_same = refl;
      closed_same = k.0;
      capacity_same = k.1;
      lifo_same = k.2;
      accepted_same = λ a. refl;
      working_same = λ a. omega arith;
      finished_same = λ a. refl;
    })
    worked-Move s q (serves it) k t =
        takes it.task (tasks_of q.buf) (served_end s q it k.2 t) (record {
          line_same = refl;
          closed_same = k.0;
          capacity_same = k.1;
          lifo_same = k.2;
          accepted_same = λ a. refl;
          working_same = λ a. omega arith;
          finished_same = λ a. refl;
        })

    worker_from_settings :
        (now : Time) (p : CodelPool G D) (buf : List (Item D))
        → ((worker_from fl now p buf).0.closed ≡ p.closed)
          × ((worker_from fl now p buf).0.capacity ≡ p.capacity)
          × ((worker_from fl now p buf).0.adaptive_lifo ≡ p.adaptive_lifo)
    unfolding worker_from serve
    worker_from_settings now p [] = (refl, refl, refl)
    worker_from_settings now p (it ∷ rest) = ground arith

    Step-Move : {s t : System G D} → Step fl ops s t → Move (view s) (view t)
    unfolding drop_callback task_end run_begin run_end close worker_lock
    Step-Move {s} (arrive_step task) = rests (arrived-Move task s)
    Step-Move {s} (enter_step now task token rest p) = entered-Move now task token rest s
    Step-Move {s} (worker_step now h) =
        worked-Move s _ _ (worker_from_settings now s.pool s.pool.buf)
          (worker_lock_order fl now s.pool)
    Step-Move (drop_step it rest p) =
        finishes it.task _ (λ a. ground (arith, Pick-total (is_task a) p))
          (record {
            line_same = refl;
            closed_same = refl;
            capacity_same = refl;
            lifo_same = refl;
            accepted_same = λ a. refl;
            working_same = λ a. refl;
            finished_same = λ a. omega arith;
          })
    Step-Move (begin_step it rest p) = rests (record {
      line_same = refl;
      closed_same = refl;
      capacity_same = refl;
      lifo_same = refl;
      accepted_same = λ a. refl;
      working_same = λ a. ground (arith, Pick-total (is_task a) p);
      finished_same = λ a. refl;
    })
    Step-Move (end_step it outcome rest p) =
        finishes it.task _ (λ a. ground (arith, Pick-total (is_task a) p))
          (record {
            line_same = refl;
            closed_same = refl;
            capacity_same = refl;
            lifo_same = refl;
            accepted_same = λ a. refl;
            working_same = λ a. refl;
            finished_same = λ a. omega arith;
          })
    Step-Move (leave_step h) = rests (Same-refl _)
    Step-Move close_step = closes (Same-refl _)
    Step-Move (toggle_step on) = rests (Same-refl _)

    history-Moves :
        {cfg : CodelConfig G} {s : System G D}
        → Reach fl ops cfg s
        → Moves (fresh_queue (at_least_one cfg.capacity) cfg.adaptive_lifo) (view s)
    unfolding new_codel
    history-Moves (init usage) = first (Same-refl _)
    history-Moves (next r st) = further (history-Moves r) (Step-Move st)

    -- Each action of a thread of a CodelPool, in every state that a new pool reaches, is one move of the
    -- abstract queue from what is seen of the pool before to what is seen of it after, or changes nothing
    -- there; and the history so far is moves from an empty open queue with the pool's capacity. So a task
    -- is accepted, and Submit's answer nil counted, just where it goes to the back of a line that is open
    -- and not full; only the oldest task is taken, or with AdaptiveLIFO the newest; what is taken is
    -- worked on, and what was worked on is finished once.
    pub Reach-Moves :
        {cfg : CodelConfig G} {s t : System G D}
        → Reach fl ops cfg s
        → Step fl ops s t
        → Move (view s) (view t)
          × Moves (fresh_queue (at_least_one cfg.capacity) cfg.adaptive_lifo) (view s)
    Reach-Moves r st = (Step-Move st, history-Moves r)

    -- Once closed, the pool stays closed and neither gains nor loses a task, whatever its threads do.
    stopped_keeps :
        (a : ℕ) {s t : System G D}
        → Step fl ops s t
        → s.pool.closed ≡ true
        → (t.pool.closed ≡ true) × (whole a (view t) ≡ whole a (view s))
    stopped_keeps a st = Move-whole a (Step-Move st)
