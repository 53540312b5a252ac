-- ===== src/Sentinel/Rules.antt =====
-- sentinel/shedder.go: which rules the library is given.
use load_shedding.Prelude.{◌≡◌, Bool, true, false, List, [], ◌∷◌, arith, if◌then◌else◌}
use load_shedding.Prelude.Int.{pos}
use load_shedding.Prelude.Float.{Float64}
use load_shedding.Sentinel.{
  MetricType, cpu_usage, concurrency, system_load, avg_rt, bbr, Config, Rule, build_rules, add_rule,
}

abbrev same_metric : MetricType → MetricType → Bool
same_metric cpu_usage cpu_usage = true
same_metric concurrency concurrency = true
same_metric system_load system_load = true
same_metric avg_rt avg_rt = true
same_metric _ _ = false

module _ (fl : Float64) where
  -- The threshold of a configuration for a metric.
  abbrev threshold : MetricType → Config fl → fl.F
  threshold cpu_usage cfg = cfg.cpu_threshold
  threshold concurrency cfg = cfg.max_concurrency
  threshold system_load cfg = cfg.max_load
  threshold avg_rt cfg = cfg.avg_rt_millis

  -- The rules for one metric, in order.
  abbrev rules_for : MetricType → List (Rule fl) → List (Rule fl)
  rules_for m [] = []
  rules_for m (r ∷ rest) =
      if same_metric m r.metric_type then r ∷ rules_for m rest else rules_for m rest

  -- A metric with a positive threshold gets exactly one rule, which triggers BBR at that threshold, and a
  -- metric with any other threshold gets none.
  rules_for-build_rules :
      (m : MetricType) (cfg : Config fl)
      → rules_for m (build_rules fl cfg) ≡ (
          if fl.lt (fl.of_int (pos 0)) (threshold m cfg)
          then record { metric_type = m; trigger_count = threshold m cfg; strategy = bbr } ∷ []
          else [])
  unfolding build_rules add_rule
  rules_for-build_rules cpu_usage cfg = ground arith
  rules_for-build_rules concurrency cfg = ground arith
  rules_for-build_rules system_load cfg = ground arith
  rules_for-build_rules avg_rt cfg = ground arith
