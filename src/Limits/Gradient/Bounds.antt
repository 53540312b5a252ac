-- ===== src/Limits/Gradient/Bounds.antt =====
-- concurrencylimits/gradient.go: the limit stays between its bounds, with the default queue size.
use load_shedding.Prelude.{
  not, ◌≡◌, refl, ◌⊎◌, inl, inr, Bool, true, false, List, [], ◌∷◌, arith, Bool-cases, if◌then◌else◌,
  sym,
}
use load_shedding.Prelude.Int.{ℤ, pos, ◌≤ℤ◌, ltb_ℤ}
use load_shedding.Prelude.Word.{decr}
use load_shedding.Prelude.Time.{Duration, eqb_ℤ}
use load_shedding.Prelude.Float.{Float64}
use load_shedding.Prelude.Float.Laws.{is_number, IsOrdered, IsClamping, IsLattice, IsExact}
use load_shedding.Limits.Held.{IsBetween, IsKept}
use load_shedding.Limits.Gradient.Clamps
use load_shedding.Limits.Gradient.{
  GradientLimit, default_queue_size, gradient_limit, softened, store_limit, react_to_rtt, probe,
  no_load_after, gradient_disabled_probe, gradient_on_sample,
}

-- A call of `OnSample`, with the random draw that it would make.
pub record Sample : Type 0 where
  pub draw : ℤ
  pub rtt : Duration
  pub inflight : ℤ
  pub did_drop : Bool

module _ (fl : Float64) where
  -- The limit after these samples, the latest first.
  abbrev pub after_samples : List Sample → GradientLimit fl → GradientLimit fl
  after_samples [] g = g
  after_samples (s ∷ older) g =
      gradient_on_sample fl s.draw s.rtt s.inflight s.did_drop (after_samples older g)

  -- The estimate is a NaN now, or was one after an earlier sample.
  abbrev pub HadNan : List Sample → GradientLimit fl → Type 0
  HadNan [] g = is_number fl g.estimated_limit ≡ false
  HadNan (s ∷ older) g =
      (is_number fl (after_samples (s ∷ older) g).estimated_limit ≡ false) ⊎ HadNan older g

  record Inv (low high : ℤ) (g : GradientLimit fl) : Type 0 where
    low_kept : g.min_limit ≡ low
    high_kept : g.max_limit ≡ high
    queue_kept : g.queue_size_func ≡ default_queue_size fl
    between : IsBetween fl low high g.estimated_limit

  -- The settings are kept, and the estimate is a NaN or in the range.
  record Step (low high : ℤ) (g : GradientLimit fl) : Type 0 where
    low_kept : g.min_limit ≡ low
    high_kept : g.max_limit ≡ high
    queue_kept : g.queue_size_func ≡ default_queue_size fl
    kept : IsKept fl low high g.estimated_limit

  module _ (ordered : IsOrdered fl) (laws : IsClamping fl) (lattice : IsLattice fl) where
    open ordered use {le_trans, of_int_mono}

    -- The softened limit is a NaN or not below the minimum.
    softened-above :
        (x : fl.F) (g : GradientLimit fl)
        → fl.le (fl.of_int g.min_limit) g.estimated_limit ≡ true
        → (is_number fl (softened fl x g) ≡ false)
          ⊎ (fl.le (fl.of_int g.min_limit) (softened fl x g) ≡ true)
    unfolding softened
    softened-above x g h = elim (Bool-cases (fl.lt x g.estimated_limit)) [
      | inl e ↦ rw e (Clamps.above_least fl ordered laws lattice g.min_limit _)
      | inr e ↦ rw e (elim (Bool-cases (is_number fl x)) [
        | inl k ↦
            inr (le_trans _ _ _ h (lattice.le_of_not_lt _ _ k (lattice.number_of_le _ _ h).1 e))
        | inr k ↦ inl k
      ])
    ]

    store_limit-IsKept :
        (low high : ℤ) (queue x : fl.F) (g : GradientLimit fl)
        → low ≤ℤ high
        → IsExact high
        → IsBetween fl (pos 0) high queue
        → Inv low high g
        → Step low high (store_limit fl queue x g)
    unfolding store_limit
    store_limit-IsKept low high queue x g m e q i = record {
      low_kept = i.low_kept;
      high_kept = i.high_kept;
      queue_kept = i.queue_kept;
      kept = rw i.high_kept (
          Clamps.clamped fl ordered laws lattice low high queue (softened fl x g) m e q
            (rw (sym i.low_kept) (softened-above x g (rw i.low_kept i.between.0))));
    }

    Inv-Step : {low high : ℤ} {g : GradientLimit fl} → Inv low high g → Step low high g
    Inv-Step i = record {
      low_kept = i.low_kept;
      high_kept = i.high_kept;
      queue_kept = i.queue_kept;
      kept = inr i.between;
    }

    if_kept :
        {low high : ℤ} (b : Bool) {g g' : GradientLimit fl}
        → Step low high g
        → Step low high g'
        → Step low high (if b then g else g')
    if_kept true k k' = k
    if_kept false k k' = k'

    react_to_rtt-Step :
        (low high : ℤ) (queue : fl.F) (rtt : Duration) (inflight : ℤ) (did_drop : Bool)
        (g : GradientLimit fl)
        → low ≤ℤ high
        → IsExact high
        → IsBetween fl (pos 0) high queue
        → Inv low high g
        → Step low high (react_to_rtt fl queue rtt inflight did_drop g)
    unfolding react_to_rtt
    react_to_rtt-Step low high queue rtt inflight did_drop g m e q i =
        let least = no_load_after fl rtt g.rtt_no_load in
        let measured : Inv low high (record g { rtt_no_load = least }) = record {
          low_kept = i.low_kept;
          high_kept = i.high_kept;
          queue_kept = i.queue_kept;
          between = i.between;
        } in
        if_kept did_drop (store_limit-IsKept low high queue _ _ m e q measured) (
          if_kept (fl.lt (fl.of_int inflight) (fl.div g.estimated_limit (fl.ratio (pos 2) (pos 1))))
            (Inv-Step measured) (store_limit-IsKept low high queue _ _ m e q measured))

    probe-Step :
        (low high : ℤ) (queue : fl.F) (draw : ℤ) (g : GradientLimit fl)
        → low ≤ℤ high
        → IsBetween fl (pos 0) high queue
        → Inv low high g
        → Step low high (probe fl queue draw g)
    unfolding probe
    probe-Step low high queue draw g m q i = record {
      low_kept = i.low_kept;
      high_kept = i.high_kept;
      queue_kept = i.queue_kept;
      kept = rw i.low_kept (
          inr (
            (laws.maximum_upper _ _ (Clamps.of_int_number fl ordered laws lattice low)
                (lattice.number_of_le _ _ q.1).0).0,
            laws.maximum_least _ _ _ (of_int_mono low high m) q.1,
          ));
    }

    on_sample-Step :
        (low high : ℤ) (s : Sample) (g : GradientLimit fl)
        → pos 1 ≤ℤ low
        → low ≤ℤ high
        → pos 4 ≤ℤ high
        → IsExact high
        → Inv low high g
        → Step low high (gradient_on_sample fl s.draw s.rtt s.inflight s.did_drop g)
    unfolding gradient_on_sample
    on_sample-Step low high s g one m four e i =
        let (over, under) =
          laws.to_int_between low high g.estimated_limit (omega arith, omega (arith, e)) e
            i.between.0 i.between.1 in
        let queue = g.queue_size_func (fl.to_int g.estimated_limit) in
        let sized : IsBetween fl (pos 0) high queue = rw i.queue_kept (
          Clamps.queue-IsBetween fl ordered laws lattice _ high (omega (arith, over)) under four
            e) in
        let counted : Inv low high (record g { reset_rtt_counter = decr g.reset_rtt_counter }) =
          record {
            low_kept = i.low_kept;
            high_kept = i.high_kept;
            queue_kept = i.queue_kept;
            between = i.between;
          } in
        if_kept (not (ltb_ℤ (pos 0) s.rtt)) (Inv-Step i) (
          if_kept (eqb_ℤ g.probe_interval gradient_disabled_probe)
            (react_to_rtt-Step low high queue s.rtt s.inflight s.did_drop g m e sized i)
            (if_kept (ltb_ℤ (pos 0) (decr g.reset_rtt_counter))
              (react_to_rtt-Step low high queue s.rtt s.inflight s.did_drop _ m e sized counted)
              (probe-Step low high queue s.draw _ m sized counted)))

    after_samples-Inv :
        (low high : ℤ) (samples : List Sample) (g : GradientLimit fl)
        → pos 1 ≤ℤ low
        → low ≤ℤ high
        → pos 4 ≤ℤ high
        → IsExact high
        → Inv low high g
        → HadNan samples g ⊎ Inv low high (after_samples samples g)
    after_samples-Inv low high [] g one m four e i = inr i
    after_samples-Inv low high (s ∷ older) g one m four e i =
        elim (after_samples-Inv low high older g one m four e i) [
          | inl nan ↦ inl (inr nan)
          | inr before ↦
              let step = on_sample-Step low high s (after_samples older g) one m four e before in
              elim step.kept [
                | inl nan ↦ inl (inl nan)
                | inr between ↦ inr (record {
                  low_kept = step.low_kept;
                  high_kept = step.high_kept;
                  queue_kept = step.queue_kept;
                  between = between;
                })
              ]
        ]

    -- Whatever samples a GradientLimit with the default queue size gets, and whatever its smoothing,
    -- tolerance, backoff and probes are, the limit that it answers stays between its minimum and its
    -- maximum, unless the arithmetic has made the estimate a NaN at some sample. The estimate starts in
    -- that range, the minimum is at least 1 and the maximum at least 4 and at most 2^53.
    pub gradient_limit-between :
        (samples : List Sample) (g : GradientLimit fl)
        → g.queue_size_func ≡ default_queue_size fl
        → pos 1 ≤ℤ g.min_limit
        → pos 4 ≤ℤ g.max_limit
        → IsExact g.max_limit
        → g.min_limit ≤ℤ g.max_limit
        → IsBetween fl g.min_limit g.max_limit g.estimated_limit
        → HadNan samples g
          ⊎ ((g.min_limit ≤ℤ gradient_limit fl (after_samples samples g))
              × (gradient_limit fl (after_samples samples g) ≤ℤ g.max_limit))
    unfolding gradient_limit
    gradient_limit-between samples g queue one four e m k =
        elim (after_samples-Inv g.min_limit g.max_limit samples g one m four e
          (record { low_kept = refl; high_kept = refl; queue_kept = queue; between = k })) [
            | inl nan ↦ inl nan
            | inr after ↦ inr (
                laws.to_int_between g.min_limit g.max_limit _ (omega arith, omega (arith, e)) e
                  after.between.0 after.between.1)
          ]
