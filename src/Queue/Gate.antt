-- ===== src/Queue/Gate.antt =====
-- queue/gate.go: the admission gate in front of a queue.
pub mod Counted
use load_shedding.Prelude.{ℕ, ◌+◌, Bool, true, false, not, Option, none, some, if◌then◌else◌, ◌&&◌}
use load_shedding.Prelude.Int.{ℤ, pos, ltb_ℤ}

-- The interface `Gate`, on a state `G`. `allow` gives the `done` callback as a token of type `D`, or
-- `none` where `ok` is false; `done` calls the callback of a token.
pub record Gate (G D : Type 0) : Type 0 where
  pub allow : G → G × Option D
  pub done : D → Bool → G → G
  pub set_enabled : Bool → G → G
  pub enabled : G → Bool

-- `cpu_usage` is what the calls of the injected source return, one after the other; `reads` counts the
-- calls so far.
pub record CpuThresholdGate : Type 0 where
  pub threshold : ℤ
  pub cpu_usage : ℕ → ℤ
  pub reads : ℕ
  pub on : Bool

-- `usage` is the source given, or the default one.
pub new_cpu_threshold_gate : ℤ → (ℕ → ℤ) → CpuThresholdGate
new_cpu_threshold_gate threshold usage = record {
  threshold = threshold;
  cpu_usage = usage;
  reads = 0;
  on = true;
}

-- The callback is always `noopDone`.
unfoldable pub cpu_allow : CpuThresholdGate → CpuThresholdGate × Option (Unit {0})
cpu_allow g =
    if not g.on then (g, some tt) else if not (ltb_ℤ (pos 0) g.threshold) then (g, some tt) else (
      record g { reads = g.reads + 1 },
      if ltb_ℤ (g.cpu_usage g.reads) g.threshold then some tt else none,
    )

abbrev pub cpu_threshold_gate : Gate CpuThresholdGate (Unit {0})
cpu_threshold_gate = record {
  allow = cpu_allow;
  done = λ _ _ g. g;
  set_enabled = λ on g. record g { on = on };
  enabled = λ g. g.on;
}

-- What a pool holds: a gate given to it, or the static one that it installs itself.
pub data Installed (G : Type 0) : Type 0 where
  explicit : G → Installed G
  cpu : CpuThresholdGate → Installed G

-- `usage` is the default source.
unfoldable pub gate_for : {G : Type 0} → Option G → ℤ → (ℕ → ℤ) → Option (Installed G)
unfolding new_cpu_threshold_gate
gate_for (some g) cpu_threshold usage = some (explicit g)
gate_for none cpu_threshold usage =
    if ltb_ℤ (pos 0) cpu_threshold
    then some (cpu (new_cpu_threshold_gate cpu_threshold usage))
    else none

cpu_answer :
    {G D : Type 0} → CpuThresholdGate × Option (Unit {0}) → Option (Installed G) × Option (Option D)
cpu_answer (g, none) = (some (cpu g), none)
cpu_answer (g, some _) = (some (cpu g), some none)

module _ {G D : Type 0} (ops : Gate G D) where
  open ops use {allow, done, set_enabled}

  explicit_answer : G × Option D → Option (Installed G) × Option (Option D)
  explicit_answer (g, none) = (some (explicit g), none)
  explicit_answer (g, some d) = (some (explicit g), some (some d))

  -- The token is `none` for `noopDone`; the outer option is `ok`.
  unfoldable pub gate_allow : Option (Installed G) → Option (Installed G) × Option (Option D)
  unfolding cpu_allow cpu_answer explicit_answer
  gate_allow none = (none, some none)
  gate_allow (some (explicit g)) = explicit_answer (allow g)
  gate_allow (some (cpu g)) = cpu_answer (cpu_allow g)

  -- The call `done(success)`.
  unfoldable pub gate_done : Option D → Bool → Option (Installed G) → Option (Installed G)
  gate_done (some d) success (some (explicit g)) = some (explicit (done d success g))
  gate_done _ success gate = gate

  -- `SetGateEnabled`.
  unfoldable pub set_gate_enabled : Bool → Option (Installed G) → Option (Installed G)
  set_gate_enabled on none = none
  set_gate_enabled on (some (explicit g)) = some (explicit (set_enabled on g))
  set_gate_enabled on (some (cpu g)) = some (cpu (cpu_threshold_gate.set_enabled on g))
