-- ===== src/Limits/Limiter.antt =====
-- concurrencylimits/limiter.go: SimpleLimiter and the listeners that it hands out.
pub mod System
pub mod Ranks
pub mod Slots
pub mod Adaptive
use load_shedding.Prelude.{Bool, true, false, Option, none, some, if◌then◌else◌}
use load_shedding.Prelude.Int.{ℤ, pos, ltb_ℤ}
use load_shedding.Prelude.Word.{incr, decr}
use load_shedding.Prelude.Time.{Time, Duration, sub}
use load_shedding.Limits.Limit.{Limit, Limiter, Report, on_success, on_ignore, on_dropped}

pub record SimpleLimiter (L : Type 0) : Type 0 where
  pub limit : L
  pub inflight : ℤ

-- `simpleListener`, less the pointer to its limiter.
pub record Listener : Type 0 where
  pub start : Time
  pub inflight : ℤ
  pub finished : Bool

abbrev pub samples : Report → Bool
samples on_ignore = false
samples _ = true

abbrev pub did_drop : Report → Bool
did_drop on_dropped = true
did_drop _ = false

-- `done.CompareAndSwap(false, true)`: the flag says whether this call is the first.
unfoldable pub finish_swap : Listener → Listener × Bool
finish_swap s = if s.finished then (s, false) else (record s { finished = true }, true)

module _ {L : Type 0} where
  unfoldable pub new_simple_limiter : L → SimpleLimiter L
  new_simple_limiter limit = record { limit = limit; inflight = pos 0 }

  -- `l.inflight.Add(1)`: the new state, and the value that `Acquire` goes on with.
  unfoldable pub acquire_add : SimpleLimiter L → SimpleLimiter L × ℤ
  acquire_add l = (record l { inflight = incr l.inflight }, incr l.inflight)

  -- `inflight.Add(-1)`, of a rejected request, and of the first call of `finish`.
  unfoldable pub release : SimpleLimiter L → SimpleLimiter L
  release l = record l { inflight = decr l.inflight }

  module _ (algorithm : Limit L) where
    open algorithm use {on_sample}

    -- The test of `Acquire`, with the value of the counter that it read.
    unfoldable pub acquire_test : Time → ℤ → SimpleLimiter L → Option Listener
    acquire_test start current l =
        if ltb_ℤ (algorithm.limit l.limit) current
        then none
        else some (record { start = start; inflight = current; finished = false })

    acquire_rest : SimpleLimiter L → Option Listener → SimpleLimiter L × Option Listener
    unfolding release
    acquire_rest l none = (release l, none)
    acquire_rest l (some s) = (l, some s)

    -- A whole call that no other thread interrupts.
    unfoldable pub acquire : Time → SimpleLimiter L → SimpleLimiter L × Option Listener
    unfolding acquire_add acquire_test acquire_rest
    acquire start l =
        let (l', current) = acquire_add l in acquire_rest l' (acquire_test start current l')

    -- The sample that `finish` feeds to the algorithm.
    unfoldable pub finish_sample : Time → Listener → Report → SimpleLimiter L → SimpleLimiter L
    finish_sample now s report l =
        if samples report
        then record l { limit = on_sample (sub now s.start) s.inflight (did_drop report) l.limit }
        else l

    unfoldable pub finish : Time → Listener → Report → SimpleLimiter L → SimpleLimiter L × Listener
    unfolding finish_swap release finish_sample
    finish now s report l =
        let (s', first) = finish_swap s in
        (if first then finish_sample now s' report (release l) else l, s')

    -- SimpleLimiter as a `Limiter`.
    abbrev pub simple_limiter : Limiter (SimpleLimiter L) Listener
    simple_limiter = record { acquire = acquire; report = finish }
