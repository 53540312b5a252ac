-- ===== src/Sentinel.antt =====
-- sentinel/shedder.go: the adapter to Sentinel's system protection. The package sentinel-golang is a
-- parameter, the record SentinelApi.
pub mod Counted
pub mod Rules
pub mod Once
pub mod Entries
mod Tests
use load_shedding.Prelude.{
  Bool, true, false, Option, none, some, List, [], ◌∷◌, ◌++◌, if◌then◌else◌, ◌⊎◌, inl, inr,
}
use load_shedding.Prelude.Int.{pos}
use load_shedding.Prelude.Float.{Float64}
use load_shedding.Http.{Script, apply, new_code_writer, shed_response}
use load_shedding.Limits.Handler.{Served, goes_on}
use load_shedding.Queue.Cpu.Text.{Text, codes, is_empty}

abbrev pub default_resource : Text
default_resource = codes "go-zero-inbound"

-- The metrics of `system.MetricType` that the code names.
pub data MetricType : Type 0 where
  cpu_usage concurrency system_load avg_rt : MetricType

pub data Strategy : Type 0 where
  bbr : Strategy

-- The process-wide variables `initOnce` and `initErr`, and what the library keeps.
pub record Process (W E : Type 0) : Type 0 where
  pub world : W
  pub started : Bool
  pub init_err : Option E

pub record Shedder : Type 0 where
  pub resource : Text

module _ (fl : Float64) where
  pub record Config : Type 0 where
    pub resource : Text
    pub cpu_threshold : fl.F
    pub max_concurrency : fl.F
    pub max_load : fl.F
    pub avg_rt_millis : fl.F

  pub record Rule : Type 0 where
    pub metric_type : MetricType
    pub trigger_count : fl.F
    pub strategy : Strategy

  -- What the code calls of the library: an error or a blocked entry is an option; an entry has type `N`.
  pub record SentinelApi (W E N : Type 0) : Type 0 where
    pub init_default : W → W × Option E
    pub load_rules : List Rule → W → W × Option E
    pub entry : Text → W → W × Option N
    pub exit : N → W → W

  abbrev pub default_config : Config
  default_config = record {
    resource = default_resource;
    cpu_threshold = fl.ratio (pos 4) (pos 5);
    max_concurrency = fl.of_int (pos 0);
    max_load = fl.of_int (pos 0);
    avg_rt_millis = fl.of_int (pos 0);
  }

  -- The closure `add` of `buildRules`.
  unfoldable pub add_rule : MetricType → fl.F → List Rule → List Rule
  add_rule metric trigger rules =
      if fl.lt (fl.of_int (pos 0)) trigger
      then rules ++ record { metric_type = metric; trigger_count = trigger; strategy = bbr } ∷ []
      else rules

  unfoldable pub build_rules : Config → List Rule
  unfolding add_rule
  build_rules cfg = add_rule avg_rt cfg.avg_rt_millis (
      add_rule system_load cfg.max_load
        (add_rule concurrency cfg.max_concurrency (add_rule cpu_usage cfg.cpu_threshold [])))

  module _ {W E N : Type 0} (api : SentinelApi W E N) where
    open api use {init_default, load_rules, entry, exit}

    started_with : W × Option E → Process W E
    started_with (w, e) = record { world = w; started = true; init_err = e }

    once : Bool → Process W E → Process W E
    unfolding started_with
    once true p = p
    once false p = started_with (init_default p.world)

    -- `initOnce.Do`.
    unfoldable pub ensure_init : Process W E → Process W E
    unfolding once
    ensure_init p = once p.started p

    loaded : Config → Process W E → W × Option E → Process W E × (E ⊎ Shedder)
    loaded cfg p (w, some e) = (record p { world = w }, inl e)
    loaded cfg p (w, none) = (
      record p { world = w },
      inr (record { resource = if is_empty cfg.resource then default_resource else cfg.resource }),
    )

    initialized : Config → Process W E → Option E → Process W E × (E ⊎ Shedder)
    unfolding loaded
    initialized cfg p (some e) = (p, inl e)
    initialized cfg p none = loaded cfg p (load_rules (build_rules cfg) p.world)

    unfoldable pub new : Config → Process W E → Process W E × (E ⊎ Shedder)
    unfolding initialized ensure_init
    new cfg p = let p' = ensure_init p in initialized cfg p' p'.init_err

    -- `Allow`; the callback of an admission is `exit` at its entry.
    unfoldable pub allow : Shedder → W → W × Option N
    allow s w = entry s.resource w

    serve : Script → W × Option N → W × Served
    serve script (w, none) = (w, record { response = shed_response; panics = false })
    serve script (w, some e) =
        (exit e w, record { response = script.calls; panics = goes_on script.ending })

    -- A request through `Handler`, with no other request in between.
    unfoldable pub handle : Shedder → Script → W → W × Served
    unfolding serve allow
    handle s script w = serve script (allow s w)
