-- ===== src/Queue/Tests/CpuRun.antt =====
-- A sampler over a version 2 cgroup with two CPUs, of which it uses one and a half.
use load_shedding.Prelude.{◌+◌, ◌-◌, ◌≤◌, ◌≡◌, refl, none, some, [], ◌∷◌, arith, if◌then◌else◌, ltb}
use load_shedding.Prelude.Int.{◌*ℤ◌}
use load_shedding.Prelude.Float.Fixed.{fixed, fixed-IsOrdered, fixed-IsClamping, fixed-IsMonotone}
use load_shedding.Queue.Cpu.{
  parse_uints, split, add_parts, interval_of, cut, parse_uint, parse_int, scan, add_range, add_new,
  read_int64, read_uint64,
}
use load_shedding.Queue.Cpu.Text.{
  Text, Files, codes, equal, trim_space, trim_left, trim_right, fields, read_text, read_lines,
}
use load_shedding.Queue.Cpu.Cgroup.{
  current_cgroup, cpu_usage, effective_cpus, cpu_quota, system_cpu_usage, look, cpu_stat_file,
  cpuset_file, cpu_max_file,
}
use load_shedding.Queue.Cpu.Sampler.{
  Sampler, refresh_cpu, initialize, total_usage, core_count, quota, usage_of,
}
use load_shedding.Queue.Cpu.Sampler.Range.{after_ticks, after_ticks-InRange, InRange}
use load_shedding.Queue.Cpu.Decimal.{range_text, numbers_from, parse_uints-range_text}

abbrev files : Text → Text → Files
files stat ticks path =
    if equal path (codes "/sys/fs/cgroup/cgroup.controllers")
    then some []
    else if equal path cpu_stat_file
    then some stat
    else if equal path cpuset_file
    then some (codes "0-1\n")
    else if equal path cpu_max_file
    then some (codes "max 100000\n")
    else if equal path (codes "/proc/stat")
    then some ticks
    else none

-- 15 milliseconds of usage while the two CPUs count 2 ticks of 10 milliseconds.
abbrev first : Files
first = files (codes "usage_usec 1000000\n") (codes "intr 5\ncpu  10 0 0 20 0 0 0 0\n")

abbrev second : Files
second = files (codes "usage_usec 1015000\n") (codes "intr 5\ncpu  11 0 0 21 0 0 0 0\n")

abbrev path : Text
path = codes "/proc/7/cgroup"

system_usage : system_cpu_usage second ≡ some 320_000_000
unfolding system_cpu_usage read_lines fields parse_uint parse_int scan split trim_space trim_left
    trim_right
system_usage = refl

abbrev started : Sampler fixed
started = after_ticks fixed path [] first

measured : (refresh_cpu fixed second path started).1 ≡ 750
unfolding system_cpu_usage read_lines read_text fields parse_uint parse_int scan split trim_space
    trim_left trim_right refresh_cpu initialize total_usage core_count quota usage_of current_cgroup
    cpu_usage effective_cpus cpu_quota look parse_uints add_parts interval_of cut add_range add_new
    read_int64 read_uint64 ◌*ℤ◌
measured = refl

after_ticks-InRange_example :
    InRange fixed (after_ticks fixed path (second ∷ []) first).usage_value
    × ((refresh_cpu fixed second path (after_ticks fixed path (second ∷ []) first)).1 ≤ 1000)
after_ticks-InRange_example =
    after_ticks-InRange fixed fixed-IsOrdered fixed-IsClamping fixed-IsMonotone path (second ∷ [])
      first second

parse_uints-range_text_example :
    parse_uints (range_text 8 11) ≡ (if ltb 11 8 then none else some (numbers_from (11 + 1 - 8) 8))
parse_uints-range_text_example = parse_uints-range_text 8 11 (omega arith) (omega arith)
