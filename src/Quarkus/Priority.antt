-- ===== src/Quarkus/Priority.antt =====
-- quarkus/priority.go: which requests to shed once the system is overloaded.
pub mod Order
use load_shedding.Prelude.{ℕ, Bool, true, false, not, List, [], ◌∷◌, if◌then◌else◌}
use load_shedding.Prelude.Int.{ℤ, pos, negsuc, ltb_ℤ}
use load_shedding.Prelude.Word.{add64, sub64, mul64, neg64, rem_by, min_int64}
use load_shedding.Prelude.Time.{eqb_ℤ}
use load_shedding.Prelude.Float.{Float64}
use load_shedding.Limits.Limit.{with_options}
use load_shedding.Quarkus.Config.{Config}

abbrev pub min_cohort : ℤ
min_cohort = pos 1

abbrev pub max_cohort : ℤ
max_cohort = pos 128

-- `RequestPriority` is an int, of which these five are named.
abbrev pub priority_critical : ℤ
priority_critical = pos 0

abbrev pub priority_important : ℤ
priority_important = pos 1

abbrev pub priority_normal : ℤ
priority_normal = pos 2

abbrev pub priority_background : ℤ
priority_background = pos 3

abbrev pub priority_degraded : ℤ
priority_degraded = pos 4

abbrev pub num_priorities : ℤ
num_priorities = pos 5

unfoldable pub cohort_baseline : ℤ → ℤ
cohort_baseline priority = mul64 priority max_cohort

pub record RequestClassifier (R : Type 0) : Type 0 where
  pub applies_to : R → Bool
  pub cohort : R → ℤ

pub record RequestPrioritizer (R : Type 0) : Type 0 where
  pub applies_to : R → Bool
  pub priority : R → ℤ

unfoldable pub normalize_cohort : ℤ → ℤ
normalize_cohort cohort =
    if eqb_ℤ cohort min_int64
    then max_cohort
    else if ltb_ℤ cohort (pos 0)
    then add64 (rem_by (neg64 cohort) 128) (pos 1)
    else if eqb_ℤ cohort (pos 0)
    then min_cohort
    else if ltb_ℤ max_cohort cohort
    then add64 (rem_by cohort 128) (pos 1)
    else cohort

module _ {R : Type 0} where
  -- The loops over the prioritizers and the classifiers.
  unfoldable pub priority_of : List (RequestPrioritizer R) → R → ℤ
  priority_of [] request = priority_normal
  priority_of (p ∷ rest) request =
      if p.applies_to request then p.priority request else priority_of rest request

  unfoldable pub cohort_of : List (RequestClassifier R) → R → ℤ
  cohort_of [] request = pos 64
  cohort_of (c ∷ rest) request =
      if c.applies_to request then c.cohort request else cohort_of rest request

-- The number that is held against the threshold.
unfoldable pub score : ℤ → ℤ → ℤ
unfolding cohort_baseline normalize_cohort
score priority cohort = add64 (cohort_baseline priority) (normalize_cohort cohort)

module _ (fl : Float64) where
  open fl use {F, of_int, ratio, minus, mul, lt}

  abbrev pub int_float : ℤ → F
  int_float n = ratio n (pos 1)

  -- `lastThresholdTime` is in milliseconds.
  pub record PriorityLoadShedding (R : Type 0) : Type 0 where
    pub enabled : Bool
    pub max : ℤ
    pub prioritizers : List (RequestPrioritizer R)
    pub classifiers : List (RequestClassifier R)
    pub last_threshold : F
    pub last_threshold_time : ℤ

  -- The options that set a clock or a source of the load are not modelled: both are arguments below.
  abbrev pub PriorityOption : Type 0 → Type 0
  PriorityOption R = PriorityLoadShedding R → PriorityLoadShedding R

  abbrev pub with_prioritizers : {R : Type 0} → List (RequestPrioritizer R) → PriorityOption R
  with_prioritizers prioritizers p = record p { prioritizers = prioritizers }

  abbrev pub with_classifiers : {R : Type 0} → List (RequestClassifier R) → PriorityOption R
  with_classifiers classifiers p = record p { classifiers = classifiers }

  unfoldable pub new_priority_load_shedding :
      {R : Type 0} → Config fl → List (PriorityOption R) → PriorityLoadShedding R
  new_priority_load_shedding cfg opts = with_options opts (record {
    enabled = cfg.priority_enabled;
    max = mul64 num_priorities max_cohort;
    prioritizers = [];
    classifiers = [];
    last_threshold = int_float (pos 0);
    last_threshold_time = pos 0;
  })

  -- The new threshold at a CPU load.
  unfoldable pub threshold_at : ℤ → F → F
  threshold_at max load =
      if lt load (int_float (pos 0))
      then int_float (negsuc 0)
      else mul (of_int max) (minus (int_float (pos 1)) (mul (mul load load) load))

  module _ {R : Type 0} where
    -- The critical section of `ShedLoad`, at a clock reading and the load that `cpuLoad` would return.
    unfoldable pub refresh : ℤ → F → PriorityLoadShedding R → PriorityLoadShedding R
    unfolding threshold_at
    refresh now load p =
        if ltb_ℤ (pos 1000) (sub64 now p.last_threshold_time)
        then record p { last_threshold = threshold_at p.max load; last_threshold_time = now }
        else p

    -- What `ShedLoad` decides from a threshold.
    unfoldable pub exceeds : F → PriorityLoadShedding R → R → Bool
    unfolding score priority_of cohort_of
    exceeds threshold p request =
        if lt threshold (int_float (pos 0))
        then true
        else lt threshold
            (of_int (score (priority_of p.prioritizers request) (cohort_of p.classifiers request)))

    unfoldable pub shed_load : ℤ → F → R → PriorityLoadShedding R → PriorityLoadShedding R × Bool
    unfolding refresh exceeds
    shed_load now load request p =
        if not p.enabled
        then (p, true)
        else (let q = refresh now load p in (q, exceeds q.last_threshold q request))
