-- ===== src/Queue/Codel/Law.antt =====
-- queue/codel.go: the CoDel control law, `shouldDrop`.
pub mod Standing
pub mod Prompt
pub mod Spacing
use load_shedding.Prelude.{Bool, true, false, not, if◌then◌else◌}
use load_shedding.Prelude.Int.{ℤ, pos, ltb_ℤ}
use load_shedding.Prelude.Word.{incr}
use load_shedding.Prelude.Time.{Time, Duration, zero_time, is_zero, after, before, sub}
use load_shedding.Prelude.Float.{Float64}

-- The fields of `CodelPool` that the control law reads and writes.
pub record Control : Type 0 where
  pub target : Duration
  pub interval : Duration
  pub dropping : Bool
  pub first_above : Time
  pub drop_next : Time
  pub count : ℤ

-- What `NewCodel` leaves them at.
abbrev pub fresh : Duration → Duration → Control
fresh target interval = record {
  target = target;
  interval = interval;
  dropping = false;
  first_above = zero_time;
  drop_next = zero_time;
  count = pos 0;
}

module _ (fl : Float64) where
  open fl use {of_int, to_int, div, sqrt}

  -- `time.Duration(float64(p.interval) / math.Sqrt(float64(p.count)))`.
  unfoldable pub spacing : Duration → ℤ → Duration
  spacing interval count = to_int (div (of_int interval) (sqrt (of_int count)))

  unfoldable pub should_drop : Control → Time → Time → Bool × Control
  should_drop c enq now =
      if ltb_ℤ (sub now enq) c.target
      then (false, record c { first_above = zero_time; dropping = false })
      else if is_zero c.first_above
      then (false, record c { first_above = after now c.interval })
      else if before now c.first_above
      then (false, c)
      else if not c.dropping
      then (true, record c { dropping = true; count = pos 1; drop_next = after now c.interval })
      else if before now c.drop_next
      then (false, c)
      else (
        true,
        record c {
          count = incr c.count;
          drop_next = after now (spacing c.interval (incr c.count));
        },
      )
