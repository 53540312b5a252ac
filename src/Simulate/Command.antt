-- ===== src/Simulate/Command.antt =====
-- cmd/simulate/main.go: the command, which puts each strategy through one scenario. `simulate.Run` is
-- run on what the strategy is set to; the table that is printed is the list of results.
use load_shedding.Prelude.{Bool, true, false, none, List, [], ◌∷◌, if◌then◌else◌}
use load_shedding.Prelude.Int.{ℤ, pos}
use load_shedding.Prelude.Float.{Float64}
use load_shedding.Queue.Cpu.Text.{Text, codes}
use load_shedding.Queue.Pool as Pool
use load_shedding.Queue.Codel.{CodelConfig}
use load_shedding.Quarkus.Config as Quarkus
use load_shedding.Quarkus.Config.{default_config}
use load_shedding.Simulate.{Scenario, Result}

-- What `queue.New`, `queue.NewCodel`, `gozero.New` with `load.WithCpuThreshold`, and `quarkus.New` are
-- called on.
pub data Strategy (fl : Float64) (G : Type 0) : Type 0 where
  bounded : Pool.Config G → Strategy fl G
  codel : CodelConfig G → Strategy fl G
  go_zero : ℤ → Strategy fl G
  priorities : Quarkus.Config fl → Strategy fl G

abbrev pub scenario : Scenario
scenario = record { duration = pos 2_000_000_000; rps = pos 800; service_time = pos 20_000_000 }

module _ {G : Type 0} where
  -- A field that a Go literal leaves out is zero.
  abbrev pub length_config : Pool.Config G
  length_config = record {
    workers = pos 4;
    queue_capacity = pos 16;
    max_wait = pos 0;
    cpu_threshold = pos 0;
    gate = none;
  }

  abbrev pub timeout_config : Pool.Config G
  timeout_config = record {
    workers = pos 4;
    queue_capacity = pos 16;
    max_wait = pos 50_000_000;
    cpu_threshold = pos 0;
    gate = none;
  }

  abbrev pub codel_config : Bool → CodelConfig G
  codel_config lifo = record {
    workers = pos 4;
    capacity = pos 10_000;
    target = pos 5_000_000;
    interval = pos 100_000_000;
    adaptive_lifo = lifo;
    cpu_threshold = pos 0;
    gate = none;
  }

  module _ (fl : Float64) (run : Text → Strategy fl G → Scenario → Result) where
    abbrev pub run_queue_length : Scenario → Result
    run_queue_length sc = run (codes "queue-length") (bounded length_config) sc

    abbrev pub run_queue_timeout : Scenario → Result
    run_queue_timeout sc = run (codes "queue-timeout") (bounded timeout_config) sc

    abbrev pub run_codel : Scenario → Bool → Result
    run_codel sc lifo =
        let name = if lifo then codes "queue-adaptive-lifo" else codes "queue-codel" in
        run name (codel (codel_config lifo)) sc

    abbrev pub run_gozero : Scenario → Result
    run_gozero sc = run (codes "gozero") (go_zero (pos 900)) sc

    abbrev pub run_quarkus : Scenario → Result
    run_quarkus sc = run (codes "quarkus") (priorities (default_config fl)) sc

    -- The table of `main`.
    abbrev pub main : List Result
    main =
        run_queue_length scenario
        ∷ run_queue_timeout scenario
        ∷ run_codel scenario false
        ∷ run_codel scenario true
        ∷ run_gozero scenario
        ∷ run_quarkus scenario
        ∷ []
