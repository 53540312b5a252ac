-- ===== src/Queue/Cpu/Cgroup.antt =====
-- queue/cpu_linux.go: the CPU limits and usage that the cgroup files and /proc/stat tell.
use load_shedding.Prelude.{
  ℕ, ◌+◌, ◌*◌, ◌/◌, ◌%◌, ◌^◌, Bool, true, false, Option, none, some, List, [], ◌∷◌, ◌++◌, ltb,
  length, if◌then◌else◌, take, drop,
}
use load_shedding.Prelude.Int.{ℤ, pos, negsuc}
use load_shedding.Prelude.Time.{eqb_ℤ}
use load_shedding.Prelude.Float.{Float64}
use load_shedding.Queue.Cpu.{parse_uint, parse_uints, split, read_int64, read_uint64}
use load_shedding.Queue.Cpu.Text.{
  Text, Files, codes, equal, is_empty, has_prefix, fields, read_text, read_lines,
}

abbrev pub cgroup_dir : Text
cgroup_dir = codes "/sys/fs/cgroup"

abbrev pub cpu_max_file : Text
cpu_max_file = codes "/sys/fs/cgroup/cpu.max"

abbrev pub cpu_stat_file : Text
cpu_stat_file = codes "/sys/fs/cgroup/cpu.stat"

abbrev pub cpuset_file : Text
cpuset_file = codes "/sys/fs/cgroup/cpuset.cpus.effective"

-- `path.Join` of clean parts, an empty one left out.
abbrev pub join : Text → Text → Text
join dir name = if is_empty dir then name else if is_empty name then dir else dir ++ 47 ∷ name

-- The maps from a string to a string; a missing key reads as the empty string.
abbrev pub Table : Type 0
Table = List (Text × Text)

unfoldable pub look : Text → Table → Text
look key [] = []
look key ((k, v) ∷ rest) = if equal k key then v else look key rest

-- The two kinds of cgroup, with their maps.
pub data Cgroup : Type 0 where
  v1 v2 : Table → Cgroup

-- The columns of a line of /proc/<pid>/cgroup: those of the CPU controllers, by name, are added.
add_controllers : List Text → Table → Table
add_controllers [] table = table
add_controllers (name ∷ rest) table = add_controllers rest ((name, join cgroup_dir name) ∷ table)

v1_line : List Text → Table → Option Table
unfolding add_controllers split has_prefix
v1_line (_ ∷ subsystem ∷ _ ∷ []) table = some (
    if has_prefix (codes "cpu") subsystem
    then add_controllers (split 44 subsystem) table
    else table)
v1_line _ table = none

v2_line : List Text → Table → Option Table
v2_line (key ∷ number_text ∷ []) table = some ((key, number_text) ∷ table)
v2_line _ table = none

-- A loop over lines that stops at the first error.
over_lines : (Text → Table → Option Table) → List Text → Option Table → Option Table
over_lines body lines none = none
over_lines body [] (some table) = some table
over_lines body (line ∷ rest) (some table) = over_lines body rest (body line table)

table_of : (Text → Table → Option Table) → Option (List Text) → Option Table
unfolding over_lines
table_of body none = none
table_of body (some lines) = over_lines body lines (some [])

made : (Table → Cgroup) → Option Table → Option Cgroup
made kind none = none
made kind (some table) = some (kind table)

-- The usage in nanoseconds from microseconds; the product wraps.
in_nanos : Option ℕ → Option ℕ
in_nanos none = none
in_nanos (some usec) = some (usec * 1000 % 2 ^ 64)

count_of : Option (List ℕ) → Option ℕ
count_of none = none
count_of (some cpus) = some (length cpus)

after_text : {A : Type 0} → (Text → Option A) → Option Text → Option A
after_text parse none = none
after_text parse (some s) = parse s

module _ (files : Files) where
  -- `cgroup_file` is the path of /proc/<pid>/cgroup of this process.
  current_v1 : Text → Option Cgroup
  unfolding made table_of v1_line read_lines
  current_v1 cgroup_file =
      made v1 (table_of (λ line. v1_line (split 58 line)) (read_lines files cgroup_file))

  current_v2 : Option Cgroup
  unfolding made table_of v2_line read_lines fields
  current_v2 = made v2 (table_of (λ line. v2_line (fields line)) (read_lines files cpu_stat_file))

  unfoldable pub current_cgroup : Bool → Text → Option Cgroup
  unfolding current_v1 current_v2
  current_cgroup true cgroup_file = current_v2
  current_cgroup false cgroup_file = current_v1 cgroup_file

  -- `readUint` and `readInt` of a file of a controller.
  unfoldable pub read_uint : Table → Text → Text → Option ℕ
  unfolding after_text look read_text
  read_uint table subsystem file =
      after_text parse_uint (read_text files (join (look subsystem table) file))

  unfoldable pub read_int : Table → Text → Text → Option ℤ
  unfolding after_text look read_text
  read_int table subsystem file =
      after_text read_int64 (read_text files (join (look subsystem table) file))

  v1_usage : Table → Option ℕ
  unfolding read_uint
  v1_usage table = read_uint table (codes "cpuacct") (codes "cpuacct.usage")

  unfoldable pub cpu_usage : Cgroup → Option ℕ
  unfolding in_nanos v1_usage
  cpu_usage (v1 table) = v1_usage table
  cpu_usage (v2 table) = in_nanos (parse_uint (look (codes "usage_usec") table))

  v1_cpus : Table → Option ℕ
  unfolding count_of after_text
  v1_cpus table = count_of (
      after_text parse_uints
        (read_text files (join (look (codes "cpuset") table) (codes "cpuset.cpus"))))

  unfoldable pub effective_cpus : Cgroup → Option ℕ
  unfolding count_of after_text v1_cpus
  effective_cpus (v1 table) = v1_cpus table
  effective_cpus (v2 table) = count_of (after_text parse_uints (read_text files cpuset_file))

  module _ (fl : Float64) where
    open fl use {F, of_int, div}

    abbrev no_quota : F
    no_quota = of_int (negsuc 0)

    ratio_of : Option ℤ → Option ℕ → Option F
    ratio_of (some quota) (some period) = some (div (of_int quota) (of_int (pos period)))
    ratio_of _ _ = none

    v1_quota : Table → Option ℤ → Option F
    unfolding ratio_of read_uint
    v1_quota table none = none
    v1_quota table (some quota) =
        if eqb_ℤ quota (negsuc 0)
        then some no_quota
        else ratio_of (some quota) (read_uint table (codes "cpu") (codes "cpu.cfs_period_us"))

    v2_quota : List Text → Option F
    unfolding ratio_of
    v2_quota (quota ∷ period ∷ []) =
        if equal quota (codes "max")
        then some no_quota
        else ratio_of (read_int64 quota) (read_uint64 period)
    v2_quota _ = none

    unfoldable pub cpu_quota : Cgroup → Option F
    unfolding v1_quota v2_quota after_text read_int
    cpu_quota (v1 table) = v1_quota table (read_int table (codes "cpu") (codes "cpu.cfs_quota_us"))
    cpu_quota (v2 table) = after_text (λ s. v2_quota (fields s)) (read_text files cpu_max_file)

-- The sum of the clock ticks, which wraps; `none` once a field is no number.
add_tick : Option ℕ → Option ℕ → Option ℕ
add_tick (some sum) (some v) = some ((sum + v) % 2 ^ 64)
add_tick _ _ = none

ticks_of : List Text → Option ℕ → Option ℕ
unfolding add_tick
ticks_of [] sum = sum
ticks_of (field ∷ rest) sum = ticks_of rest (add_tick sum (parse_uint field))

in_cpu_nanos : Option ℕ → Option ℕ
in_cpu_nanos none = none
in_cpu_nanos (some ticks) = some (ticks * 1_000_000_000 % 2 ^ 64 / 100)

-- The line of the fields after "cpu": at least 8 fields, of which the first is the name.
cpu_line : List Text → Option ℕ
unfolding in_cpu_nanos ticks_of
cpu_line line =
    if ltb (length line) 8 then none else in_cpu_nanos (ticks_of (drop 1 (take 8 line)) (some 0))

-- A line that is not the one looked for goes on to the later lines.
starts_cpu : List Text → Option ℕ → Option ℕ
unfolding cpu_line
starts_cpu [] later = later
starts_cpu (name ∷ rest) later = if equal name (codes "cpu") then cpu_line (name ∷ rest) else later

-- The first line that starts with the field "cpu". A kept line is not blank, so it has a first field.
first_cpu : List Text → Option ℕ
unfolding starts_cpu fields
first_cpu [] = none
first_cpu (line ∷ rest) = starts_cpu (fields line) (first_cpu rest)

usage_in : Option (List Text) → Option ℕ
unfolding first_cpu
usage_in none = none
usage_in (some lines) = first_cpu lines

unfoldable pub system_cpu_usage : Files → Option ℕ
unfolding usage_in read_lines
system_cpu_usage files = usage_in (read_lines files (codes "/proc/stat"))
