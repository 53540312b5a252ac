-- ===== src/Quarkus/Config.antt =====
-- quarkus/config.go.
use load_shedding.Prelude.{Bool, true}
use load_shedding.Prelude.Int.{ℤ, pos}
use load_shedding.Prelude.Float.{Float64}

pub record Config (fl : Float64) : Type 0 where
  pub max_limit : ℤ
  pub alpha_factor : ℤ
  pub beta_factor : ℤ
  pub probe_factor : fl.F
  pub initial_limit : ℤ
  pub priority_enabled : Bool

abbrev pub default_config : (fl : Float64) → Config fl
default_config fl = record {
  max_limit = pos 1000;
  alpha_factor = pos 3;
  beta_factor = pos 6;
  probe_factor = fl.ratio (pos 30) (pos 1);
  initial_limit = pos 100;
  priority_enabled = true;
}
