-- ===== src/Queue/Codel/Law/Standing.antt =====
-- queue/codel.go: when `shouldDrop` drops, in terms of the dequeues that it has seen.
use load_shedding.Prelude.{true, false, ◌≡◌, refl, ◌⊎◌, inl, inr, List, [], ◌∷◌, arith}
use load_shedding.Prelude.Int.{ℤ, ◌≤ℤ◌, ltb_ℤ}
use load_shedding.Prelude.Time.{Time, Duration, after, sub, is_zero}
use load_shedding.Prelude.Float.{Float64}
use load_shedding.Queue.Codel.Law.{Control, fresh, should_drop}

-- One dequeue: when the oldest item was queued, and when the worker looked at it.
pub record Sample : Type 0 where
  pub enq : Time
  pub now : Time

abbrev pub IsAbove : Duration → Sample → Type 0
IsAbove target s = ltb_ℤ (sub s.now s.enq) target ≡ false

-- The latest samples, newest first, are all above the target, back to one taken at least `interval`
-- before `now`.
abbrev pub Standing : Duration → Duration → Time → List Sample → Type 0
Standing target interval now [] = ⊥
Standing target interval now (s ∷ older) =
    IsAbove target s × ((after s.now interval ≤ℤ now) ⊎ Standing target interval now older)

-- The timer was started in an unbroken run of samples above the target.
abbrev pub Timed : Duration → Duration → Time → List Sample → Type 0
Timed target interval due [] = ⊥
Timed target interval due (s ∷ older) =
    IsAbove target s × ((after s.now interval ≡ due) ⊎ Timed target interval due older)

Timed-Standing :
    (target interval due now : ℤ) (samples : List Sample)
    → due ≤ℤ now
    → Timed target interval due samples
    → Standing target interval now samples
Timed-Standing target interval due now [] h t = t
Timed-Standing target interval due now (s ∷ older) h (above, inl e) = (above, inl (rw e h))
Timed-Standing target interval due now (s ∷ older) h (above, inr t) =
    (above, inr (Timed-Standing target interval due now older h t))

module _ (fl : Float64) where
  -- The control state after a history of dequeues, newest first.
  unfoldable pub control_after : Control → List Sample → Control
  control_after c [] = c
  control_after c (s ∷ older) = (should_drop fl (control_after c older) s.enq s.now).1

  pub record Inv (target interval : Duration) (c : Control) (samples : List Sample) : Type 0 where
    pub same_target : c.target ≡ target
    pub same_interval : c.interval ≡ interval
    pub timer : (is_zero c.first_above ≡ true) ⊎ Timed target interval c.first_above samples

  should_drop-Inv :
      (target interval : Duration) (c : Control) (samples : List Sample) (s : Sample)
      → Inv target interval c samples
      → Inv target interval (should_drop fl c s.enq s.now).1 (s ∷ samples)
  unfolding should_drop
  should_drop-Inv target interval c samples s h = ground arith

  pub control_after-Inv :
      (target interval : Duration) (samples : List Sample)
      → Inv target interval (control_after (fresh target interval) samples) samples
  unfolding control_after
  control_after-Inv target interval [] = record {
    same_target = refl;
    same_interval = refl;
    timer = inl refl;
  }
  control_after-Inv target interval (s ∷ older) =
      should_drop-Inv target interval _ older s (control_after-Inv target interval older)

  due_of_drop :
      (target interval : Duration) (c : Control) (samples : List Sample) (s : Sample)
      → Inv target interval c samples
      → (should_drop fl c s.enq s.now).0 ≡ true
      → IsAbove target s × (c.first_above ≤ℤ s.now) × Timed target interval c.first_above samples
  unfolding should_drop
  due_of_drop target interval c samples s h e = ground arith

  -- CoDel drops only from a standing queue: at a drop, the sample itself and an unbroken run of the
  -- latest samples before it are all at or above the target, and that run goes back to a sample taken
  -- at least `interval` before. This holds after any history of dequeues of a new pool.
  pub should_drop-Standing :
      (target interval : Duration) (samples : List Sample) (s : Sample)
      → (should_drop fl (control_after (fresh target interval) samples) s.enq s.now).0 ≡ true
      → IsAbove target s × Standing target interval s.now samples
  should_drop-Standing target interval samples s e =
      let (above, due, timed) =
        due_of_drop target interval _ samples s (control_after-Inv target interval samples) e in
      (above, Timed-Standing target interval _ s.now samples due timed)
