-- ===== src/Queue/Codel.antt =====
-- queue/codel.go: the state of a CodelPool and its critical sections. Each function below is what the
-- code does under one lock or by one atomic operation; `System` interleaves them.
pub mod Law
pub mod System
pub mod Bounds
pub mod Fate
pub mod Tokens
pub mod Order
pub mod Drain
pub mod Wait
pub mod Refines
pub mod Wakeup
pub mod Stop
use load_shedding.Prelude.{
  ℕ, Bool, true, false, not, Option, none, some, List, [], ◌∷◌, ◌++◌, if◌then◌else◌, ◌&&◌, length,
}
use load_shedding.Prelude.Int.{ℤ, pos, ltb_ℤ}
use load_shedding.Prelude.Word.{incr, decr}
use load_shedding.Prelude.Time.{Time, Duration}
use load_shedding.Prelude.Float.{Float64}
use load_shedding.Queue.Gate.{Gate, Installed, gate_allow, gate_done, gate_for}
use load_shedding.Queue.Task.{
  SubmitError, nil_task, queue_full, overloaded, stopped, Outcome, success_of,
}
use Law.{Control, fresh, should_drop}

-- `codelItem`: the task and its callback are closures over the gate's token.
pub record Item (D : Type 0) : Type 0 where
  pub task : ℕ
  pub token : Option D
  pub enq : Time

pub record CodelConfig (G : Type 0) : Type 0 where
  pub workers : ℤ
  pub capacity : ℤ
  pub target : Duration
  pub interval : Duration
  pub adaptive_lifo : Bool
  pub cpu_threshold : ℤ
  pub gate : Option G

pub record CodelPool (G D : Type 0) : Type 0 where
  pub workers : ℤ
  pub capacity : ℤ
  pub adaptive_lifo : Bool
  pub gate : Option (Installed G)
  pub buf : List (Item D)
  pub closed : Bool
  pub control : Control
  pub active : ℤ
  pub accepted : ℤ
  pub rejected : ℤ
  pub dropped : ℤ

pub record CodelStats : Type 0 where
  pub queued : ℕ
  pub active : ℤ
  pub accepted : ℤ
  pub rejected : ℤ
  pub dropped : ℤ

abbrev pub default_target : Duration
default_target = pos 5_000_000

abbrev pub default_interval : Duration
default_interval = pos 100_000_000

-- `if x < 1 { x = 1 }` and `if d <= 0 { d = def }`.
abbrev pub at_least_one : ℤ → ℤ
at_least_one x = if ltb_ℤ x (pos 1) then pos 1 else x

abbrev pub positive_or : Duration → Duration → Duration
positive_or def d = if ltb_ℤ (pos 0) d then d else def

-- What a worker does next, decided under the lock.
pub data Decision (D : Type 0) : Type 0 where
  waits exits : Decision D
  drops serves : Item D → Decision D

-- `p.buf[last]` and `p.buf[:last]` of a queue with this head and tail.
unfoldable pub split_last {ℓ} : {A : Type ℓ} → A → List A → List A × A
split_last x [] = ([], x)
split_last x (y ∷ ys) = let (front, last) = split_last y ys in (x ∷ front, last)

module _ {G D : Type 0} where
  -- `NewCodel`. `usage` is the default CPU source.
  unfoldable pub new_codel : CodelConfig G → (ℕ → ℤ) → CodelPool G D
  unfolding gate_for
  new_codel cfg usage = record {
    workers = at_least_one cfg.workers;
    capacity = at_least_one cfg.capacity;
    adaptive_lifo = cfg.adaptive_lifo;
    gate = gate_for cfg.gate cfg.cpu_threshold usage;
    buf = [];
    closed = false;
    control =
        fresh (positive_or default_target cfg.target) (positive_or default_interval cfg.interval);
    active = pos 0;
    accepted = pos 0;
    rejected = pos 0;
    dropped = pos 0;
  }

  unfoldable pub stats : CodelPool G D → CodelStats
  stats p = record {
    queued = length p.buf;
    active = p.active;
    accepted = p.accepted;
    rejected = p.rejected;
    dropped = p.dropped;
  }

  -- The critical section of `Stop`; waiting for the workers is up to the caller.
  unfoldable pub close : CodelPool G D → CodelPool G D
  close p = record p { closed = true }

  -- `run`, before and after the task.
  unfoldable pub run_begin : CodelPool G D → CodelPool G D
  run_begin p = record p { active = incr p.active }

  unfoldable pub run_end : CodelPool G D → CodelPool G D
  run_end p = record p { active = decr p.active }

  -- Serve the survivor: the newest item while dropping if adaptive LIFO, else the oldest.
  unfoldable pub serve : CodelPool G D → Item D → List (Item D) → CodelPool G D × Decision D
  unfolding split_last
  serve p head rest =
      if p.adaptive_lifo && p.control.dropping
      then (let (front, last) = split_last head rest in (record p { buf = front }, serves last))
      else (record p { buf = rest }, serves head)

  module _ (fl : Float64) where
    -- The critical section of `worker`: `waits` stands for `notEmpty.Wait`, after which it runs again.
    worker_from : Time → CodelPool G D → List (Item D) → CodelPool G D × Decision D
    worker_from now p [] = (p, if p.closed then exits else waits)
    worker_from now p (head ∷ rest) =
        let (drop, control) = should_drop fl p.control head.enq now in
        let q = record p { control = control } in
        if drop
        then (record q { buf = rest; dropped = incr q.dropped }, drops head)
        else serve q head rest

    unfoldable pub worker_lock : Time → CodelPool G D → CodelPool G D × Decision D
    unfolding worker_from serve
    worker_lock now p = worker_from now p p.buf

  module _ (ops : Gate G D) where
    gate_answer :
        CodelPool G D → Option (Installed G) × Option (Option D) → CodelPool G D × Option (Option D)
    gate_answer p (g, some token) = (record p { gate = g }, some token)
    gate_answer p (g, none) = (record p { gate = g; rejected = incr p.rejected }, none)

    -- The start of `submitWithOutcome`, before the lock: the gate's token if it lets the task in.
    unfoldable pub arrive : CodelPool G D → CodelPool G D × Option (Option D)
    unfolding gate_allow gate_answer
    arrive p = gate_answer p (gate_allow ops p.gate)

    -- The call `done(success)` of a token.
    unfoldable pub settle : Option D → Bool → CodelPool G D → CodelPool G D
    unfolding gate_done
    settle token success p = record p { gate = gate_done ops token success p.gate }

    -- The critical section of `submitWithOutcome`.
    unfoldable pub enter : Time → ℕ → Option D → CodelPool G D → CodelPool G D × Option SubmitError
    unfolding settle
    enter now task token p =
        if p.closed
        then (settle token false p, some stopped)
        else if not (ltb_ℤ (pos (length p.buf)) p.capacity)
        then (settle token false (record p { rejected = incr p.rejected }), some queue_full)
        else (
          record p {
            buf = p.buf ++ (record { task = task; token = token; enq = now } ∷ []);
            accepted = incr p.accepted;
          },
          none,
        )

    enter_if : Time → ℕ → CodelPool G D × Option (Option D) → CodelPool G D × Option SubmitError
    unfolding enter
    enter_if now task (p, none) = (p, some overloaded)
    enter_if now task (p, some token) = enter now task token p

    -- A whole call of `Submit` that no other thread interrupts; a nil task is `none`.
    unfoldable pub submit : Time → Option ℕ → CodelPool G D → CodelPool G D × Option SubmitError
    unfolding arrive enter_if
    submit now none p = (p, some nil_task)
    submit now (some task) p = enter_if now task (arrive p)

    -- `dropCb` without the waiter's callback, and the end of `runTask`: both call `done` once.
    unfoldable pub drop_callback : Item D → CodelPool G D → CodelPool G D
    unfolding settle
    drop_callback it p = settle it.token false p

    unfoldable pub task_end : Item D → Outcome → CodelPool G D → CodelPool G D
    unfolding settle success_of
    task_end it outcome p = settle it.token (success_of outcome) p
