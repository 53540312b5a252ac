-- ===== src/Queue/Pool.antt =====
-- queue/pool.go: the state of a Pool and its atomic actions, which `System` interleaves.
pub mod System
pub mod Slots
pub mod Fate
pub mod Tokens
pub mod Drain
pub mod Wait
pub mod Refines
pub mod Stop
use load_shedding.Prelude.{
  ℕ, ◌+◌, ◌-◌, Bool, true, false, not, Option, none, some, List, [], ◌∷◌, ◌++◌, if◌then◌else◌,
  length,
}
use load_shedding.Prelude.Int.{ℤ, pos, ltb_ℤ}
use load_shedding.Prelude.Word.{incr, decr, add64}
use load_shedding.Prelude.Time.{Duration}
use load_shedding.Queue.Gate.{Gate, Installed, gate_allow, gate_done, gate_for}
use load_shedding.Queue.Task.{SubmitError, queue_full, queue_timeout, stopped, Outcome, success_of}

-- The closure that `submitWithOutcome` sends: the task and the gate's token.
pub record Job (D : Type 0) : Type 0 where
  pub task : ℕ
  pub token : Option D

pub record Config (G : Type 0) : Type 0 where
  pub workers : ℤ
  pub queue_capacity : ℤ
  pub max_wait : Duration
  pub cpu_threshold : ℤ
  pub gate : Option G

-- `sem` is the number of values in the channel of that name. Both channels have room for `capacity`.
pub record Pool (G D : Type 0) : Type 0 where
  pub workers : ℤ
  pub capacity : ℤ
  pub tasks : List (Job D)
  pub sem : ℕ
  pub max_wait : Duration
  pub gate : Option (Installed G)
  pub closed : Bool
  pub active : ℤ
  pub accepted : ℤ
  pub rejected : ℤ

pub record Stats : Type 0 where
  pub queued : ℕ
  pub active : ℤ
  pub accepted : ℤ
  pub rejected : ℤ

abbrev pub at_least : ℤ → ℤ → ℤ
at_least low x = if ltb_ℤ x low then low else x

module _ {G D : Type 0} where
  abbrev pub pool_of : Config G → (ℕ → ℤ) → ℤ → ℤ → Pool G D
  pool_of cfg usage workers capacity = record {
    workers = workers;
    capacity = capacity;
    tasks = [];
    sem = 0;
    max_wait = cfg.max_wait;
    gate = gate_for cfg.gate cfg.cpu_threshold usage;
    closed = false;
    active = pos 0;
    accepted = pos 0;
    rejected = pos 0;
  }

  -- `New`. `none` is the panic of `make` where the sum wraps to a negative size.
  unfoldable pub new : Config G → (ℕ → ℤ) → Option (Pool G D)
  unfolding gate_for
  new cfg usage =
      let workers = at_least (pos 1) cfg.workers in
      let capacity = add64 workers (at_least (pos 0) cfg.queue_capacity) in
      if ltb_ℤ capacity (pos 0) then none else some (pool_of cfg usage workers capacity)

  unfoldable pub stats : Pool G D → Stats
  stats p = record {
    queued = length p.tasks;
    active = p.active;
    accepted = p.accepted;
    rejected = p.rejected;
  }

  -- `case p.sem <- struct{}{}`: `none` where the channel is full.
  unfoldable pub try_acquire : Pool G D → Option (Pool G D)
  try_acquire p = if ltb_ℤ (pos p.sem) p.capacity then some (record p { sem = p.sem + 1 }) else none

  -- `<-p.sem`, at a value in the channel.
  unfoldable pub release : Pool G D → Pool G D
  release p = record p { sem = p.sem - 1 }

  -- `p.accepted.Add(1)`, after the send.
  unfoldable pub count_accepted : Pool G D → Pool G D
  count_accepted p = record p { accepted = incr p.accepted }

  -- `run`, before and after the task.
  unfoldable pub run_begin : Pool G D → Pool G D
  run_begin p = record p { active = incr p.active }

  unfoldable pub run_end : Pool G D → Pool G D
  run_end p = record p { active = decr p.active }

  -- The critical section of `Stop`.
  unfoldable pub close : Pool G D → Pool G D
  close p = record p { closed = true }

  module _ (ops : Gate G D) where
    gate_answer : Pool G D → Option (Installed G) × Option (Option D) → Pool G D × Option (Option D)
    gate_answer p (g, some token) = (record p { gate = g }, some token)
    gate_answer p (g, none) = (record p { gate = g; rejected = incr p.rejected }, none)

    -- The start of `submitWithOutcome`: the gate's token if it lets the task in; if not, the answer is
    -- ErrOverloaded.
    unfoldable pub arrive : Pool G D → Pool G D × Option (Option D)
    unfolding gate_allow gate_answer
    arrive p = gate_answer p (gate_allow ops p.gate)

    -- The call `done(success)` of a token.
    unfoldable pub settle : Option D → Bool → Pool G D → Pool G D
    unfolding gate_done
    settle token success p = record p { gate = gate_done ops token success p.gate }

    -- The branch of `submitWithOutcome` where `acquire` is false.
    unfoldable pub shed : Option D → Pool G D → Pool G D × SubmitError
    unfolding settle
    shed token p =
        let q = settle token false p in
        (
          record q { rejected = incr q.rejected },
          if ltb_ℤ (pos 0) p.max_wait then queue_timeout else queue_full,
        )

    -- The part of `submitWithOutcome` under the read lock, up to the send.
    unfoldable pub send : Job D → Pool G D → Pool G D × Option SubmitError
    unfolding release settle
    send job p =
        if p.closed
        then (settle job.token false (release p), some stopped)
        else (record p { tasks = p.tasks ++ job ∷ [] }, none)

    -- The end of the closure around the task, which calls `done` once.
    unfoldable pub task_end : Job D → Outcome → Pool G D → Pool G D
    unfolding settle success_of
    task_end job outcome p = settle job.token (success_of outcome) p
