-- ===== src/Queue/Pool/Slots.antt =====
-- queue/pool.go: each slot of the semaphore belongs to one task in flight.
use load_shedding.Prelude.{
  ℕ, ◌+◌, ◌<◌, ◌≡◌, inr, ◌↔◌, none, some, List, [], ◌∷◌, arith, length, length-append,
}
use load_shedding.Prelude.Bag.{Pick, Pick-length}
use load_shedding.Prelude.Int.{ℤ, pos, ◌≤ℤ◌}
use load_shedding.Prelude.Word.{IsInt64, incr_pos, decr_pos, add64}
use load_shedding.Queue.Gate.{Gate}
use load_shedding.Queue.Pool.{
  Pool, Config, Job, new, try_acquire, release, count_accepted, run_begin, run_end, close, arrive,
  shed, send, task_end, at_least,
}
use load_shedding.Queue.Pool.System.{
  System, start, arrived, offered, HasRoom, Step, arrive_step, acquire_step, shed_step, send_step,
  count_step, receive_step, exit_step, begin_step, end_step, leave_step, release_step, close_step,
  toggle_step, Reach, init, next,
}

module _ {G D : Type 0} where
  abbrev busy : System G D → ℕ
  busy s = length s.executing + s.ending

  -- The tasks in flight: on their way in, queued, and with a worker until it has released the slot.
  abbrev pub in_flight : System G D → ℕ
  in_flight s =
      length s.holding
      + length s.pool.tasks
      + length s.taken
      + length s.executing
      + s.ending
      + s.releasing

  abbrev pub staff : System G D → ℕ
  staff s = s.idle + s.exited + length s.taken + length s.executing + s.ending + s.releasing

  pub record Inv (cfg : Config G) (s : System G D) : Type 0 where
    pub same_workers : s.pool.workers ≡ at_least (pos 1) cfg.workers
    pub same_capacity :
        s.pool.capacity ≡ add64 (at_least (pos 1) cfg.workers) (at_least (pos 0) cfg.queue_capacity)
    pub manned : pos (staff s) ≡ s.pool.workers
    pub counted : s.pool.active ≡ pos (busy s)
    pub slots : s.pool.sem ≡ in_flight s
    pub bounded : pos s.pool.sem ≤ℤ s.pool.capacity

  module _ (ops : Gate G D) (cfg : Config G) (small : IsInt64 cfg.workers) where
    Step-Inv : {s t : System G D} → Step ops s t → Inv cfg s → Inv cfg t
    unfolding arrive arrived try_acquire shed send offered count_accepted release task_end run_begin
        run_end close
    Step-Inv (arrive_step task) v = ground arith
    Step-Inv (acquire_step job rest p e) v = ground (arith, Pick-length p)
    Step-Inv (shed_step job rest p h) v = ground (arith, Pick-length p)
    Step-Inv {s} (send_step job rest p h) v =
        ground (arith, Pick-length p, length-append s.pool.tasks (job ∷ []))
    Step-Inv (count_step h) v = ground arith
    Step-Inv {s} (receive_step job rest h e) v = ground arith
    Step-Inv (exit_step h e c) v = ground arith
    Step-Inv {s} (begin_step job rest p) v = ground (arith, Pick-length p, incr_pos (busy s))
    Step-Inv (end_step job outcome rest p) v = ground (arith, Pick-length p)
    Step-Inv {s} (leave_step h) v = ground (arith, decr_pos (busy s))
    Step-Inv (release_step h) v = ground arith
    Step-Inv close_step v = ground arith
    Step-Inv (toggle_step on) v = ground arith

    init-Inv : (usage : ℕ → ℤ) {p : Pool G D} → new cfg usage ≡ some p → Inv cfg (start p)
    unfolding new
    init-Inv usage e = ground arith

    Reach-Inv : {s : System G D} → Reach ops cfg s → Inv cfg s
    Reach-Inv (init usage e) = init-Inv usage e
    Reach-Inv (next r st) = Step-Inv st (Reach-Inv r)

    -- In every state that a new pool reaches, the semaphore counts the tasks in flight, and these are at
    -- most Workers + QueueCapacity (an int sum, of at least 1 worker and at least 0 places); the counter
    -- of active tasks is the number of workers inside `run`, at most Workers.
    pub Reach-slots :
        {s : System G D}
        → Reach ops cfg s
        → (s.pool.sem ≡ in_flight s)
          × (pos (in_flight s)
              ≤ℤ add64 (at_least (pos 1) cfg.workers) (at_least (pos 0) cfg.queue_capacity))
          × (s.pool.active ≡ pos (length s.executing + s.ending))
          × (s.pool.active ≤ℤ at_least (pos 1) cfg.workers)
    Reach-slots r = let v = Reach-Inv r in ground (arith, v)

    -- A submitter that holds a slot never blocks: the channel of tasks has room for its send, or the
    -- pool is closed and it gives back its slot, of which there is one.
    send_never_blocks :
        {s : System G D} (job : Job D) (rest : List (Job D))
        → Reach ops cfg s
        → Pick job s.holding rest
        → HasRoom s.pool × (0 < s.pool.sem)
    send_never_blocks job rest r p =
        let v = Reach-Inv r in
        (inr (ground (arith, v, Pick-length p)), ground (arith, v, Pick-length p))

    -- Without a wait (MaxWait <= 0) a slot is refused exactly when the whole budget is in flight.
    refused_iff_full :
        {s : System G D}
        → Reach ops cfg s
        → (try_acquire s.pool ≡ none) ↔ (pos (in_flight s) ≡ s.pool.capacity)
    unfolding try_acquire
    refused_iff_full r = let v = Reach-Inv r in (λ h. ground (arith, v), λ h. ground (arith, v))
