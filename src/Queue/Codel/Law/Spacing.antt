-- ===== src/Queue/Codel/Law/Spacing.antt =====
-- queue/codel.go: how far apart the drops of a standing queue are.
use load_shedding.Prelude.{◌+◌, true, false, ◌≡◌, List, [], ◌∷◌, length, if◌then◌else◌}
use load_shedding.Prelude.Int.{pos, ◌≤ℤ◌, ltb_ℤ}
use load_shedding.Prelude.Word.{wrap}
use load_shedding.Prelude.Time.{Time, Duration, after, sub, zero_time}
use load_shedding.Prelude.Float.{Float64}
use load_shedding.Queue.Codel.Law.{Control, fresh, should_drop, spacing}
use load_shedding.Queue.Codel.Law.Standing.{Sample, control_after}

module _ (fl : Float64) where
  -- When the next drop is due, after these drops, the latest first: one interval after the first, and
  -- after the n-th one interval divided by the square root of n.
  abbrev pub due_time : Duration → List Time → Time
  due_time interval [] = zero_time
  due_time interval (t ∷ []) = after t interval
  due_time interval (t ∷ u ∷ rest) = after t (spacing fl interval (wrap (pos (length rest + 2))))

  module _ (target interval : Duration) where
    drops_with : List Time → Sample → Control → List Time
    drops_with drops s c =
        if ltb_ℤ (sub s.now s.enq) target
        then []
        else if (should_drop fl c s.enq s.now).0
        then s.now ∷ drops
        else drops

    -- The drops since the last sample below the target, the latest first.
    unfoldable pub drops_after : List Sample → List Time
    unfolding drops_with
    drops_after [] = []
    drops_after (s ∷ older) =
        drops_with (drops_after older) s (control_after fl (fresh target interval) older)

    abbrev pub IsSpaced : Time → List Time → Type 0
    IsSpaced now [] = Unit {0}
    IsSpaced now (t ∷ rest) = due_time interval (t ∷ rest) ≤ℤ now

    abbrev Phase : Control → List Time → Type 0
    Phase c [] = c.dropping ≡ false
    Phase c (t ∷ rest) =
        (c.dropping ≡ true)
        × (c.count ≡ wrap (pos (length rest + 1)))
        × (c.drop_next ≡ due_time interval (t ∷ rest))

    record Inv (c : Control) (drops : List Time) : Type 0 where
      same_target : c.target ≡ target
      same_interval : c.interval ≡ interval
      phase : Phase c drops
