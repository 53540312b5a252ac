-- ===== src/Queue/Cpu/Sampler/Range.antt =====
-- queue/cpu.go: the CPU usage that a gate reads is in thousandths, from 0 to 1000.
use load_shedding.Prelude.{
  ℕ, ◌≤◌, ◌≡◌, refl, true, false, Option, none, some, List, [], ◌∷◌, arith, Bool, ◌∙◌,
}
use load_shedding.Prelude.Int.{ℤ, pos, ◌≤ℤ◌}
use load_shedding.Prelude.Float.{Float64}
use load_shedding.Prelude.Float.Laws.{IsOrdered, IsClamping, IsMonotone}
use load_shedding.Queue.Cpu.Text.{Text, Files}
use load_shedding.Queue.Cpu.Sampler.{
  Sampler, new_sampler, usage_of, measure, refresh_ready, refresh_cpu, initialize, once, with_cores,
  prime, sample_tick, sub_u64,
}

module _ (fl : Float64) where
  usage_of-le :
      (files : Files) (cgroup_file : Text) (cpu_delta system_delta : ℕ) (s : Sampler fl)
      → usage_of fl files cgroup_file cpu_delta system_delta s ≤ 1000
  unfolding usage_of
  usage_of-le files cgroup_file cpu_delta system_delta s = ground arith

  measure-le :
      (files : Files) (cgroup_file : Text) (total system : Option ℕ) (s : Sampler fl)
      → ((measure fl files cgroup_file total system s).1 ≤ 1000)
        × ((measure fl files cgroup_file total system s).0.usage_value ≡ s.usage_value)
  unfolding measure
  measure-le files cgroup_file none system s = (omega arith, refl)
  measure-le files cgroup_file (some total) none s = (omega arith, refl)
  measure-le files cgroup_file (some total) (some system) s = (
    usage_of-le files cgroup_file (sub_u64 total s.pre_total) (sub_u64 system s.pre_system) s,
    refl,
  )

  prime-value :
      (files : Files) (cgroup_file : Text) (system total : Option ℕ) (s : Sampler fl)
      → (prime fl files cgroup_file system total s).usage_value ≡ s.usage_value
  unfolding prime
  prime-value files cgroup_file none total s = refl
  prime-value files cgroup_file (some system) none s = refl
  prime-value files cgroup_file (some system) (some total) s = refl

  with_cores-value :
      (files : Files) (cgroup_file : Text) (cpus : Option ℕ) (s : Sampler fl)
      → (with_cores fl files cgroup_file cpus s).usage_value ≡ s.usage_value
  unfolding with_cores
  with_cores-value files cgroup_file none s = refl
  with_cores-value files cgroup_file (some cpus) s = prime-value files cgroup_file _ _ _

  refresh-le :
      (files : Files) (cgroup_file : Text) (s : Sampler fl)
      → ((refresh_ready fl files cgroup_file s).1 ≤ 1000)
        × ((refresh_ready fl files cgroup_file s).0.usage_value ≡ s.usage_value)
  unfolding refresh_ready
  refresh-le files cgroup_file s = ground (arith, measure-le files cgroup_file _ _ s)

  once-value :
      (files : Files) (cgroup_file : Text) (initialized : Bool) (s : Sampler fl)
      → (once fl files cgroup_file initialized s).usage_value ≡ s.usage_value
  unfolding once initialize
  once-value files cgroup_file true s = refl
  once-value files cgroup_file false s = with_cores-value files cgroup_file _ _

  refresh_cpu-le :
      (files : Files) (cgroup_file : Text) (s : Sampler fl)
      → ((refresh_cpu fl files cgroup_file s).1 ≤ 1000)
        × ((refresh_cpu fl files cgroup_file s).0.usage_value ≡ s.usage_value)
  unfolding refresh_cpu
  refresh_cpu-le files cgroup_file s =
      let s' = once fl files cgroup_file s.initialized s in
      let (low, same) = refresh-le files cgroup_file s' in
      (low, same ∙ once-value files cgroup_file s.initialized s)

  abbrev pub InRange : ℤ → Type 0
  InRange usage = (pos 0 ≤ℤ usage) × (usage ≤ℤ pos 1000)

  -- The sampler after its start and these ticks, the latest first, each with what it reads from the
  -- file system.
  abbrev pub after_ticks : Text → List Files → Files → Sampler fl
  after_ticks cgroup_file [] first = (refresh_cpu fl first cgroup_file (new_sampler fl)).0
  after_ticks cgroup_file (files ∷ older) first =
      sample_tick fl files cgroup_file (after_ticks cgroup_file older first)

  module _ (ordered : IsOrdered fl) (clamping : IsClamping fl) (laws : IsMonotone fl) where
    open laws use {mul_nonneg, mul_mono, add_nonneg, add_mono, most, little, thousand}

    -- The moving average of two numbers in the range.
    average-InRange :
        (prev cur : ℤ)
        → InRange prev
        → InRange cur
        → InRange (
            fl.to_int (
              fl.add
                (fl.mul (fl.of_int prev) (fl.ratio (pos 19) (pos 20)))
                (fl.mul (fl.of_int cur) (fl.ratio (pos 1) (pos 20)))))
    average-InRange prev cur p c =
        let a = fl.mul (fl.of_int prev) (fl.ratio (pos 19) (pos 20)) in
        let b = fl.mul (fl.of_int cur) (fl.ratio (pos 1) (pos 20)) in
        let a0 = mul_nonneg prev _ (omega arith) most in
        let b0 = mul_nonneg cur _ (omega arith) little in
        let a1 = mul_mono prev (pos 1000) _ (omega arith) (omega arith) p.1 most in
        let b1 = mul_mono cur (pos 1000) _ (omega arith) (omega arith) c.1 little in
        let high = add_mono a _ b _ a0 b0 a1 b1 in
        clamping.to_int_between (pos 0) (pos 1000) (fl.add a b) (omega arith) (omega arith)
          (add_nonneg a b a0 b0) (rw (← thousand) high)

    sample_tick-InRange :
        (files : Files) (cgroup_file : Text) (s : Sampler fl)
        → InRange s.usage_value
        → InRange (sample_tick fl files cgroup_file s).usage_value
    unfolding sample_tick
    sample_tick-InRange files cgroup_file s h =
        let (low, same) = refresh_cpu-le files cgroup_file s in
        average-InRange _ _ (rw same h) (omega (arith, low))

    -- Whatever the files hold, now and at every tick so far, the CPU usage that a gate reads is from 0 to
    -- 1000, and so is each new measurement.
    pub after_ticks-InRange :
        (cgroup_file : Text) (ticks : List Files) (first now : Files)
        → InRange (after_ticks cgroup_file ticks first).usage_value
          × ((refresh_cpu fl now cgroup_file (after_ticks cgroup_file ticks first)).1 ≤ 1000)
    after_ticks-InRange cgroup_file [] first now =
        let (low, same) = refresh_cpu-le first cgroup_file (new_sampler fl) in
        (rw same (omega arith), (refresh_cpu-le now cgroup_file _).0)
    after_ticks-InRange cgroup_file (files ∷ older) first now = (
      sample_tick-InRange files cgroup_file (after_ticks cgroup_file older first)
          (after_ticks-InRange cgroup_file older first now).0,
      (refresh_cpu-le now cgroup_file _).0,
    )
