-- ===== src/Queue/Cpu/Sampler.antt =====
-- queue/cpu_linux.go `refreshCpu`, and queue/cpu.go: the CPU usage in thousandths, and its moving average.
pub mod Range
use load_shedding.Prelude.{
  ℕ, ◌+◌, ◌-◌, ◌*◌, ◌%◌, ◌^◌, Bool, true, false, not, Option, none, some, ltb, if◌then◌else◌, ◌&&◌,
}
use load_shedding.Prelude.Int.{ℤ, pos}
use load_shedding.Prelude.Float.{Float64}
use load_shedding.Queue.Cpu.Text.{Text, Files, codes}
use load_shedding.Queue.Cpu.Cgroup.{
  Cgroup, current_cgroup, cpu_usage, effective_cpus, cpu_quota, system_cpu_usage,
}

abbrev pub cpu_max_milli : ℕ
cpu_max_milli = 1000

abbrev pub is_there : {A : Type 0} → Option A → Bool
is_there none = false
is_there (some _) = true

-- The difference of two uint64.
abbrev pub sub_u64 : ℕ → ℕ → ℕ
sub_u64 a b = (a + (2 ^ 64 - b)) % 2 ^ 64

module _ (fl : Float64) where
  open fl use {F, of_int, to_int, to_uint, ratio, add, mul, div, lt}

  -- The package variables. `initialized` stands for `cpuInitOnce`, and `unified` is what `isUnifiedOnce`
  -- has found, which the initialization is the first to ask.
  pub record Sampler : Type 0 where
    pub pre_system : ℕ
    pub pre_total : ℕ
    pub cpu_limit : F
    pub cpu_cores : ℕ
    pub no_cgroup : Bool
    pub initialized : Bool
    pub unified : Bool
    -- `cpuUsageValue`.
    pub usage_value : ℤ

  abbrev pub new_sampler : Sampler
  new_sampler = record {
    pre_system = 0;
    pre_total = 0;
    cpu_limit = of_int (pos 0);
    cpu_cores = 0;
    no_cgroup = false;
    initialized = false;
    unified = false;
    usage_value = pos 0;
  }

  lower_limit : F → Option F → F
  lower_limit limit none = limit
  lower_limit limit (some quota) =
      if lt (of_int (pos 0)) quota && lt quota limit then quota else limit

  -- What a step of the initialization reads, with 0 for an error, which makes it fail.
  or_zero : Option ℕ → ℕ
  or_zero none = 0
  or_zero (some n) = n

  module _ (files : Files) (cgroup_file : Text) where
    on_cgroup : {A : Type 0} → (Cgroup → Option A) → Option Cgroup → Option A
    on_cgroup read none = none
    on_cgroup read (some cg) = read cg

    -- `cgroupCpuUsage`, `cgroupEffectiveCpus` and `cgroupCpuQuota`.
    unfoldable pub total_usage : Sampler → Option ℕ
    unfolding on_cgroup current_cgroup cpu_usage
    total_usage s = on_cgroup (cpu_usage files) (current_cgroup files s.unified cgroup_file)

    unfoldable pub core_count : Sampler → Option ℕ
    unfolding on_cgroup current_cgroup effective_cpus
    core_count s = on_cgroup (effective_cpus files) (current_cgroup files s.unified cgroup_file)

    unfoldable pub quota : Sampler → Option F
    unfolding on_cgroup current_cgroup cpu_quota
    quota s = on_cgroup (cpu_quota files fl) (current_cgroup files s.unified cgroup_file)

    -- `cpuInitialize` from the read of the system's usage on.
    prime : Option ℕ → Option ℕ → Sampler → Sampler
    prime none total s = record s { pre_system = 0; no_cgroup = true }
    prime (some system) none s = record s { pre_system = system; pre_total = 0; no_cgroup = true }
    prime (some system) (some total) s = record s { pre_system = system; pre_total = total }

    with_cores : Option ℕ → Sampler → Sampler
    unfolding prime lower_limit total_usage quota
    with_cores none s = record s { no_cgroup = true }
    with_cores (some cpus) s =
        prime (system_cpu_usage files) (total_usage s)
          (record s { cpu_cores = cpus; cpu_limit = lower_limit (of_int (pos cpus)) (quota s) })

    -- The body of `cpuInitOnce`.
    unfoldable pub initialize : Sampler → Sampler
    unfolding with_cores core_count
    initialize s =
        let s' = record s {
          initialized = true;
          unified = is_there (files (codes "/sys/fs/cgroup/cgroup.controllers"));
        } in
        with_cores (core_count s') s'

    -- The usage from the growth of the two counters.
    unfoldable pub usage_of : ℕ → ℕ → Sampler → ℕ
    usage_of cpu_delta system_delta s =
        if ltb 0 cpu_delta && ltb 0 system_delta
        then (let usage = to_uint (
              div (of_int (pos (cpu_delta * s.cpu_cores * cpu_max_milli % 2 ^ 64)))
                (mul (of_int (pos system_delta)) s.cpu_limit)) in
            if ltb cpu_max_milli usage then cpu_max_milli else usage)
        else 0

    measure : Option ℕ → Option ℕ → Sampler → Sampler × ℕ
    unfolding usage_of
    measure (some total) (some system) s = (
      record s { pre_system = system; pre_total = total },
      usage_of (sub_u64 total s.pre_total) (sub_u64 system s.pre_system) s,
    )
    measure _ _ s = (s, 0)

    refresh_ready : Sampler → Sampler × ℕ
    unfolding measure total_usage
    refresh_ready s =
        if s.no_cgroup then (s, 0) else measure (total_usage s) (system_cpu_usage files) s

    -- `cpuInitOnce.Do`, by whether it has run.
    once : Bool → Sampler → Sampler
    unfolding initialize
    once true s = s
    once false s = initialize s

    -- `refreshCpu`, at one reading of the file system.
    unfoldable pub refresh_cpu : Sampler → Sampler × ℕ
    unfolding refresh_ready once
    refresh_cpu s = refresh_ready (once s.initialized s)

    -- One tick of `startCpuSampler`.
    unfoldable pub sample_tick : Sampler → Sampler
    unfolding refresh_cpu
    sample_tick s =
        let (s', cur) = refresh_cpu s in
        record s' {
          usage_value = to_int (
              add (mul (of_int s'.usage_value) (ratio (pos 19) (pos 20)))
                (mul (of_int (pos cur)) (ratio (pos 1) (pos 20))));
        }
