-- ===== src/Queue/Tests/CodelLaw.antt =====
-- The control law over four dequeues: 5 ms of target, 100 ms of interval, times in ns.
use load_shedding.Prelude.{ℕ, ◌*◌, ◌≡◌, refl, inl, inr, true, false, List, [], ◌∷◌, arith}
use load_shedding.Prelude.Int.{pos, ◌+ℤ◌, ◌-ℤ◌}
use load_shedding.Prelude.Time.{sub}
use load_shedding.Prelude.Float.Fixed.{fixed}
use load_shedding.Queue.Codel.{default_target, default_interval}
use load_shedding.Queue.Codel.Law.{fresh, should_drop}
use load_shedding.Queue.Codel.Law.Standing.{
  Sample, IsAbove, Standing, control_after, should_drop-Standing,
}
use load_shedding.Queue.Codel.Law.Spacing.{drops_after}
use load_shedding.Queue.Codel.Law.Prompt.{should_drop_prompt}

-- Queued and dequeued at these milliseconds.
abbrev sample : ℕ → ℕ → Sample
sample enq now = record { enq = pos (enq * 1_000_000); now = pos (now * 1_000_000) }

abbrev history : List Sample
history = sample 30 90 ∷ sample 20 50 ∷ sample 10 40 ∷ sample 8 9 ∷ []

first_drop :
    (should_drop fixed
      (control_after fixed (fresh default_target default_interval) history)
      (pos 35_000_000)
      (pos 140_000_000)).0
    ≡ true
unfolding control_after should_drop sub ◌+ℤ◌ ◌-ℤ◌
first_drop = refl

no_drop_before :
    (should_drop fixed
      (control_after fixed (fresh default_target default_interval) history)
      (pos 35_000_000)
      (pos 139_999_999)).0
    ≡ false
unfolding control_after should_drop sub ◌+ℤ◌ ◌-ℤ◌
no_drop_before = refl

should_drop-Standing_example :
    IsAbove default_target (sample 35 140)
    × Standing default_target default_interval (sample 35 140).now history
should_drop-Standing_example =
    should_drop-Standing fixed default_target default_interval history (sample 35 140) first_drop

should_drop_prompt_example :
    (should_drop fixed
      (control_after fixed (fresh default_target default_interval) history)
      (pos 35_000_000)
      (pos 140_000_000)).0
    ≡ true
unfolding control_after should_drop sub ◌+ℤ◌ ◌-ℤ◌
should_drop_prompt_example =
    should_drop_prompt fixed default_target default_interval history (sample 35 140)
      (omega arith, refl, (omega arith, refl, (omega arith, refl, (omega arith, refl, tt)))) refl
      refl (refl, inr (refl, inr (refl, inl (omega arith))))

-- The first drop was at 140 ms, so the second is due at 240 ms.
abbrev later : List Sample
later = sample 60 180 ∷ sample 35 140 ∷ history

one_drop : drops_after fixed default_target default_interval later ≡ pos 140_000_000 ∷ []
unfolding drops_after control_after should_drop sub ◌+ℤ◌ ◌-ℤ◌
one_drop = refl
