-- ===== src/Queue/Codel/Wakeup.antt =====
-- queue/codel.go: the condition variable `notEmpty`. A worker that finds the queue of an open pool empty
-- sleeps in `Wait`; `submitWithOutcome` wakes one sleeper by `Signal`, and `Stop` all by `Broadcast`.
use load_shedding.Prelude.{
  ℕ, ◌+◌, ◌-◌, ◌<◌, ◌≤◌, ◌≡◌, refl, false, Option, none, some, List, [], ◌∷◌, arith, length,
  if◌then◌else◌, length-append, ◌==◌, ◌⊎◌, inl, inr, Bool-cases,
}
use load_shedding.Prelude.Bag.{Pick-length}
use load_shedding.Prelude.Int.{ℤ}
use load_shedding.Prelude.Time.{Time}
use load_shedding.Prelude.Float.{Float64}
use load_shedding.Queue.Gate.{Gate}
use load_shedding.Queue.Task.{SubmitError}
use load_shedding.Queue.Codel.{
  CodelPool, CodelConfig, Item, Decision, waits, new_codel, worker_lock, arrive, enter,
  drop_callback, task_end, run_begin, run_end, close,
}
use load_shedding.Queue.Codel.System.{
  System, start, arrived, entered, worked, Step, arrive_step, enter_step, worker_step, drop_step,
  begin_step, end_step, leave_step, close_step, toggle_step, Reach, init, next,
}
use load_shedding.Queue.Codel.Bounds.{staff}
use load_shedding.Queue.Codel.Bounds as Bounds

module _ {G D : Type 0} where
  signalled : CodelPool G D × Option SubmitError → ℕ → ℕ
  signalled (p, none) asleep = asleep - 1
  signalled (p, some _) asleep = asleep

  fell_asleep : CodelPool G D × Decision D → ℕ → ℕ
  fell_asleep (p, waits) asleep = asleep + 1
  fell_asleep _ asleep = asleep

  -- Workers at the top of their loop, of which some may be asleep, and those with a task.
  abbrev pub on_duty : System G D → ℕ
  on_duty s = s.idle + length s.falling + length s.serving + length s.executing + s.ending

  module _ (fl : Float64) (ops : Gate G D) where
    -- The number of sleepers after an action.
    unfoldable pub asleep_after : {s t : System G D} → Step fl ops s t → ℕ → ℕ
    unfolding signalled fell_asleep
    asleep_after {s} (enter_step now task token rest p) asleep =
        signalled (enter ops now task token s.pool) asleep
    asleep_after {s} (worker_step now h) asleep = fell_asleep (worker_lock fl now s.pool) asleep
    asleep_after close_step asleep = 0
    asleep_after _ asleep = asleep

    -- A worker takes the lock only while it is awake.
    abbrev pub IsAwake : {s t : System G D} → Step fl ops s t → ℕ → Type 0
    IsAwake {s} (worker_step now h) asleep = asleep < s.idle
    IsAwake _ asleep = Unit {0}

    -- The states that a new pool reaches, with the number of sleepers.
    pub data ReachAsleep (cfg : CodelConfig G) : System G D → ℕ → Type 0 where
      init_awake : (usage : ℕ → ℤ) → ReachAsleep cfg (start (new_codel cfg usage)) 0
      next_asleep :
          {s t : System G D} {asleep : ℕ}
          → ReachAsleep cfg s asleep
          → (st : Step fl ops s t) → IsAwake st asleep
          → ReachAsleep cfg t (asleep_after st asleep)

    forget :
        {cfg : CodelConfig G} {s : System G D} {asleep : ℕ}
        → ReachAsleep cfg s asleep
        → Reach fl ops cfg s
    forget (init_awake usage) = init usage
    forget (next_asleep r st h) = next (forget r) st

    pub record Inv (s : System G D) (asleep : ℕ) : Type 0 where
      pub among : asleep ≤ s.idle
      pub woken : (if s.pool.closed then asleep else 0) ≡ 0
      pub attended : (if length s.pool.buf == 0 then 0 else asleep) < on_duty s + s.exited
      pub left : (if s.exited == 0 then 0 else if s.pool.closed then length s.pool.buf else 1) ≡ 0

    worked-Inv :
        (now : Time) (s : System G D) (asleep : ℕ) (buf : List (Item D))
        → s.pool.buf ≡ buf
        → asleep < s.idle
        → Inv s asleep
        → Inv
            (worked (worker_lock fl now s.pool) s)
            (fell_asleep (worker_lock fl now s.pool) asleep)
    unfolding worker_lock worked fell_asleep
    worked-Inv now s asleep [] e h v = ground arith
    worked-Inv now s asleep (it ∷ rest) e h v = ground (arith, Bounds.length-split_last {0} it rest)

    Step-Inv :
        {s t : System G D} (st : Step fl ops s t) (asleep : ℕ)
        → IsAwake st asleep
        → Inv s asleep
        → Inv t (asleep_after st asleep)
    unfolding asleep_after signalled arrive arrived enter entered drop_callback task_end run_begin
        run_end close
    Step-Inv (arrive_step task) asleep h v = ground arith
    Step-Inv {s} (enter_step now task token rest p) asleep h v =
        ground
          (arith, length-append s.pool.buf (record { task = task; token = token; enq = now } ∷ []))
    Step-Inv {s} (worker_step now k) asleep h v = worked-Inv now s asleep s.pool.buf refl h v
    Step-Inv (drop_step it rest p) asleep h v = ground (arith, Pick-length p)
    Step-Inv (begin_step it rest p) asleep h v = ground (arith, Pick-length p)
    Step-Inv (end_step it outcome rest p) asleep h v = ground (arith, Pick-length p)
    Step-Inv (leave_step k) asleep h v = ground arith
    Step-Inv close_step asleep h v = ground arith
    Step-Inv (toggle_step on) asleep h v = ground arith

    attended_queue :
        (s : System G D) (asleep : ℕ) (buf : List (Item D))
        → s.pool.buf ≡ buf
        → Inv s asleep
        → (buf ≡ []) ⊎ (asleep < on_duty s)
    attended_queue s asleep [] e v = inl refl
    attended_queue s asleep (it ∷ rest) e v = inr (ground (arith, v.attended, v.left))

    init-Inv : (cfg : CodelConfig G) (usage : ℕ → ℤ) → Inv (start {D = D} (new_codel cfg usage)) 0
    unfolding new_codel
    init-Inv cfg usage = ground arith

    pub Reach-Inv :
        {cfg : CodelConfig G} {s : System G D} {asleep : ℕ}
        → ReachAsleep cfg s asleep
        → Inv s asleep
    Reach-Inv {cfg} (init_awake usage) = init-Inv cfg usage
    Reach-Inv (next_asleep {asleep = asleep} r st h) = Step-Inv st asleep h (Reach-Inv r)

    -- No wakeup is lost: in every state that a new pool reaches, where items are queued some worker that has
    -- not returned is awake, and once the pool is closed no worker sleeps. So a queued task is not left to
    -- sleepers, and `Stop` does not wait for one.
    pub no_lost_wakeup :
        {cfg : CodelConfig G} {s : System G D} {asleep : ℕ}
        → ReachAsleep cfg s asleep
        → ((s.pool.buf ≡ []) ⊎ (asleep < on_duty s)) × ((s.pool.closed ≡ false) ⊎ (asleep ≡ 0))
    no_lost_wakeup {s = s} r =
        let v = Reach-Inv r in
        (
          attended_queue s _ s.pool.buf refl v,
          elim (Bool-cases s.pool.closed) [ inl c ↦ inr (ground (arith, v.woken)) | inr c ↦ inl c ],
        )
