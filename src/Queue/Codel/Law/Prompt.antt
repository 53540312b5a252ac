-- ===== src/Queue/Codel/Law/Prompt.antt =====
-- queue/codel.go: a standing queue makes `shouldDrop` drop.
use load_shedding.Prelude.{true, false, ◌≡◌, sym, ◌⊎◌, inl, inr, List, [], ◌∷◌, arith}
use mathlib.Core.Path.{subst}
use load_shedding.Prelude.Int.{ℤ, ◌≤ℤ◌, int_laws, ◌+ℤ◌}
use load_shedding.Prelude.Time.{Time, Duration, after, is_zero}
use load_shedding.Prelude.Float.{Float64}
use load_shedding.Queue.Codel.Law.{Control, fresh, should_drop}
use load_shedding.Queue.Codel.Law.Standing.{
  Sample, IsAbove, Standing, control_after, Timed, Inv, control_after-Inv,
}

-- The clock does not go back along the history (newest first), and no timer falls on the zero time,
-- which the code takes for an unset one.
abbrev pub IsOrdered : Duration → Time → List Sample → Type 0
IsOrdered interval now [] = Unit {0}
IsOrdered interval now (s ∷ older) =
    (s.now ≤ℤ now) × (is_zero (after s.now interval) ≡ false) × IsOrdered interval s.now older

-- No sample of the current run above the target was taken more than `interval` before `due`.
abbrev IsEarly : Duration → Duration → Time → List Sample → Type 0
IsEarly target interval due [] = Unit {0}
IsEarly target interval due (s ∷ older) =
    IsAbove target s → (due ≤ℤ after s.now interval) × IsEarly target interval due older

Standing-due :
    (target interval due now : ℤ) (samples : List Sample)
    → IsEarly target interval due samples
    → Standing target interval now samples
    → due ≤ℤ now
Standing-due target interval due now [] e h = absurd h
Standing-due target interval due now (s ∷ older) e (above, inl h) = omega (arith, (e above).0)
Standing-due target interval due now (s ∷ older) e (above, inr h) =
    Standing-due target interval due now older (e above).1 h

-- The timer runs if the latest sample was above the target.
abbrev IsRunning : Duration → Control → List Sample → Type 0
IsRunning target c [] = Unit {0}
IsRunning target c (s ∷ older) = IsAbove target s → is_zero c.first_above ≡ false

+ℤ_right_mono : (a b c : ℤ) → a ≤ℤ b → a +ℤ c ≤ℤ b +ℤ c
+ℤ_right_mono a b c h = omega int_laws

module _ (fl : Float64) (target interval : Duration) where
  -- With the timer set at a run of samples, a later sample is early too.
  IsEarly-later :
      (due : Time) (s : Sample) (older : List Sample)
      → IsOrdered interval s.now older
      → Timed target interval due older
      → IsEarly target interval due older
      → due ≤ℤ after s.now interval
  IsEarly-later due s [] o t e = absurd t
  IsEarly-later due s (r ∷ older) o (above, t) e =
      omega (arith, (e above).0, +ℤ_right_mono r.now s.now interval o.0)

  -- Below the target nothing is asked of the earlier samples.
  IsEarly-idle :
      (c : Control) (due : Time) (older : List Sample)
      → IsRunning target c older
      → is_zero c.first_above ≡ true
      → IsEarly target interval due older
  IsEarly-idle c due [] r z = tt
  IsEarly-idle c due (s ∷ older) r z = λ above. cc (r above)

  abbrev IsEarlyFrom : Sample → List Sample → Time → Type 0
  IsEarlyFrom s older due = (due ≤ℤ after s.now interval) × IsEarly target interval due older

  record Ready (c : Control) (samples : List Sample) : Type 0 where
    running : IsRunning target c samples
    early : IsEarly target interval c.first_above samples

  -- A sample above the target starts the timer or leaves it.
  due_after :
      (c : Control) (s : Sample)
      → c.target ≡ target
      → c.interval ≡ interval
      → IsAbove target s
      → let due = (should_drop fl c s.enq s.now).1.first_above in
        ((is_zero c.first_above ≡ true) × (due ≡ after s.now interval))
        ⊎ ((is_zero c.first_above ≡ false) × (due ≡ c.first_above))
  unfolding should_drop
  due_after c s t i above = ground arith

  Timed-of_set :
      (c : Control) (older : List Sample)
      → Inv fl target interval c older
      → is_zero c.first_above ≡ false
      → Timed target interval c.first_above older
  Timed-of_set c older inv z = elim inv.timer [ inl e ↦ cc | inr t ↦ t ]

  should_drop-Ready :
      (c : Control) (older : List Sample) (s : Sample)
      → IsOrdered interval s.now older
      → is_zero (after s.now interval) ≡ false
      → Inv fl target interval c older
      → Ready c older
      → Ready (should_drop fl c s.enq s.now).1 (s ∷ older)
  should_drop-Ready c older s o nz inv h = record {
    running = λ above. elim (due_after c s inv.same_target inv.same_interval above) [
      | inl (z, e) ↦ rw e nz
      | inr (z, e) ↦ rw e z
    ];
    early = λ above. elim (due_after c s inv.same_target inv.same_interval above) [
      | inl (z, e) ↦
          subst (IsEarlyFrom s older) (sym e)
            (omega arith, IsEarly-idle c (after s.now interval) older h.running z)
      | inr (z, e) ↦
          subst (IsEarlyFrom s older) (sym e)
            (IsEarly-later c.first_above s older o (Timed-of_set c older inv z) h.early, h.early)
    ];
  }

  control_after-Ready :
      (now : Time) (samples : List Sample)
      → IsOrdered interval now samples
      → Ready (control_after fl (fresh target interval) samples) samples
  unfolding control_after
  control_after-Ready now [] o = record { running = tt; early = tt }
  control_after-Ready now (s ∷ older) o =
      should_drop-Ready _ older s o.2 o.1 (control_after-Inv fl target interval older)
        (control_after-Ready s.now older o.2)

  drop_of_due :
      (c : Control) (s : Sample)
      → c.target ≡ target
      → c.dropping ≡ false
      → is_zero c.first_above ≡ false
      → c.first_above ≤ℤ s.now
      → IsAbove target s
      → (should_drop fl c s.enq s.now).0 ≡ true
  unfolding should_drop
  drop_of_due c s t d z due above = ground arith

  set_of_Standing :
      (c : Control) (now : Time) (samples : List Sample)
      → Ready c samples
      → Standing target interval now samples
      → is_zero c.first_above ≡ false
  set_of_Standing c now [] h st = absurd st
  set_of_Standing c now (s ∷ older) h st = h.running st.0

  -- CoDel starts to drop as soon as the queue stands: outside the dropping state, if the sample is at or
  -- above the target and so is the unbroken run of the latest samples before it, back to one taken at
  -- least `interval` before, the item is dropped. The conditions: the clock does not go back along the
  -- history of a new pool, and no timer is set to the zero time.
  pub should_drop_prompt :
      (samples : List Sample) (s : Sample)
      → IsOrdered interval s.now samples
      → (control_after fl (fresh target interval) samples).dropping ≡ false
      → IsAbove target s
      → Standing target interval s.now samples
      → (should_drop fl (control_after fl (fresh target interval) samples) s.enq s.now).0 ≡ true
  should_drop_prompt samples s o d above st =
      let ready = control_after-Ready s.now samples o in
      let inv = control_after-Inv fl target interval samples in
      drop_of_due _ s inv.same_target d (set_of_Standing _ s.now samples ready st)
        (Standing-due target interval _ s.now samples ready.early st) above
