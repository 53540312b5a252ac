-- ===== src/Limits/Vegas/Bounds.antt =====
-- concurrencylimits/vegas.go: without smoothing the limit stays between 1 and its maximum.
use load_shedding.Prelude.{◌≡◌, refl, ◌⊎◌, inl, inr, Bool, true, false, List, [], ◌∷◌, arith}
use load_shedding.Prelude.Int.{ℤ, pos, ◌≤ℤ◌}
use load_shedding.Prelude.Word.{incr}
use load_shedding.Prelude.Time.{Duration}
use load_shedding.Prelude.Float.{Float64}
use load_shedding.Prelude.Float.Laws.{is_number, IsOrdered, IsClamping, IsUnital, IsExact}
use load_shedding.Limits.Held.{IsBetween, IsKept, held_within-IsKept, held_within}
use load_shedding.Limits.Vegas.{
  VegasLimit, vegas_limit, vegas_on_sample, probe_or_update, update_estimated_limit, react_to_queue,
  settle_limit,
}

-- A call of `OnSample`, with the random draw that it would make.
pub record Sample (fl : Float64) : Type 0 where
  pub draw : fl.F
  pub rtt : Duration
  pub inflight : ℤ
  pub did_drop : Bool

module _ (fl : Float64) where
  -- The limit after these samples, the latest first.
  abbrev pub after_samples : List (Sample fl) → VegasLimit fl → VegasLimit fl
  after_samples [] v = v
  after_samples (s ∷ older) v =
      vegas_on_sample fl s.draw s.rtt s.inflight s.did_drop (after_samples older v)

  abbrev one : fl.F
  one = fl.ratio (pos 1) (pos 1)

  record Inv (high : ℤ) (v : VegasLimit fl) : Type 0 where
    high_kept : v.max_limit ≡ high
    unsmoothed : v.smoothing ≡ one
    kept : IsKept fl (pos 1) high v.estimated_limit

  module _ (ordered : IsOrdered fl) (laws : IsClamping fl) (units : IsUnital fl) where
    -- The mix of the old and the new limit is the new one.
    blend-IsKept :
        (high : ℤ) (x y : fl.F)
        → IsExact high
        → IsKept fl (pos 1) high x
        → IsKept fl (pos 1) high y
        → IsKept fl (pos 1) high (fl.add (fl.mul (fl.minus one one) x) (fl.mul one y))
    blend-IsKept high x y h (inl e) k =
        inl (units.add_nan _ _ (inl (units.mul_nan (fl.minus one one) x e)))
    blend-IsKept high x y h (inr a) (inl e) = inl (units.add_nan _ _ (inr (units.mul_nan one y e)))
    blend-IsKept high x y h (inr a) (inr b) =
        rw
          (
            units.one_minus_one,
            units.zero_mul high x h a.0 a.1,
            units.one_mul y,
            units.zero_add y b.0,
          )
          (inr b)

    settle_limit-Inv :
        (high : ℤ) (x : fl.F) (v : VegasLimit fl)
        → IsExact high
        → pos 1 ≤ℤ high
        → Inv high v
        → Inv high (settle_limit fl x v)
    unfolding settle_limit held_within
    settle_limit-Inv high x v h low i =
        let held = held_within-IsKept fl ordered laws (pos 1) high x low in
        let mixed =
          blend-IsKept high v.estimated_limit (held_within fl (pos 1) high x) h i.kept held in
        record {
          high_kept = i.high_kept;
          unsmoothed = i.unsmoothed;
          kept = rw (i.high_kept, i.unsmoothed) mixed;
        }

    react_to_queue-Inv :
        (high queue : ℤ) (v : VegasLimit fl)
        → IsExact high
        → pos 1 ≤ℤ high
        → Inv high v
        → Inv high (react_to_queue fl queue v)
    unfolding react_to_queue
    react_to_queue-Inv high queue v h low i =
        let limit = v.estimated_limit in
        ground (
          arith,
          settle_limit-Inv high (fl.add limit (fl.of_int (v.beta (fl.to_int limit)))) v h low i,
          settle_limit-Inv high (v.increase limit) v h low i,
          settle_limit-Inv high (v.decrease limit) v h low i,
        )

    update-Inv :
        (high : ℤ) (rtt : Duration) (inflight : ℤ) (did_drop : Bool) (v : VegasLimit fl)
        → IsExact high
        → pos 1 ≤ℤ high
        → Inv high v
        → Inv high (update_estimated_limit fl rtt inflight did_drop v)
    unfolding update_estimated_limit
    update-Inv high rtt inflight true v h low i =
        settle_limit-Inv high (v.decrease v.estimated_limit) v h low i
    update-Inv high rtt inflight false v h low i = ground (
      arith,
      react_to_queue-Inv high
          (fl.to_int (
            fl.ceil (
              fl.mul v.estimated_limit
                (fl.minus one (fl.div (fl.of_int v.rtt_no_load) (fl.of_int rtt))))))
          v h low i,
    )

    on_sample-Inv :
        (high : ℤ) (s : Sample fl) (v : VegasLimit fl)
        → IsExact high
        → pos 1 ≤ℤ high
        → Inv high v
        → Inv high (vegas_on_sample fl s.draw s.rtt s.inflight s.did_drop v)
    unfolding vegas_on_sample probe_or_update
    on_sample-Inv high s v h low i =
        let v' = record v { probe_count = incr v.probe_count } in
        ground (
          arith,
          update-Inv high s.rtt s.inflight s.did_drop v' h low
              (record { high_kept = i.high_kept; unsmoothed = i.unsmoothed; kept = i.kept }),
        )

    after_samples-Inv :
        (high : ℤ) (samples : List (Sample fl)) (v : VegasLimit fl)
        → IsExact high
        → pos 1 ≤ℤ high
        → Inv high v
        → Inv high (after_samples samples v)
    after_samples-Inv high [] v h low i = i
    after_samples-Inv high (s ∷ older) v h low i =
        on_sample-Inv high s (after_samples older v) h low (after_samples-Inv high older v h low i)

    -- With the default smoothing of 1.0, and whatever samples a VegasLimit gets, the limit that it answers
    -- stays between 1 and its maximum, unless the arithmetic has made the estimate a NaN. The estimate
    -- starts in that range, and the maximum is from 1 to 2^53.
    pub vegas_limit-between :
        (samples : List (Sample fl)) (v : VegasLimit fl)
        → IsExact v.max_limit
        → pos 1 ≤ℤ v.max_limit
        → v.smoothing ≡ fl.ratio (pos 1) (pos 1)
        → IsBetween fl (pos 1) v.max_limit v.estimated_limit
        → (is_number fl (after_samples samples v).estimated_limit ≡ false)
          ⊎ ((pos 1 ≤ℤ vegas_limit fl (after_samples samples v))
              × (vegas_limit fl (after_samples samples v) ≤ℤ v.max_limit))
    unfolding vegas_limit
    vegas_limit-between samples v h low e k =
        elim (after_samples-Inv v.max_limit samples v h low
          (record { high_kept = refl; unsmoothed = e; kept = inr k })).kept [
            | inl nan ↦ inl nan
            | inr (over, under) ↦ inr (
                laws.to_int_between (pos 1) v.max_limit (after_samples samples v).estimated_limit
                  (omega arith, omega arith) h over under)
          ]
