-- ===== src/Queue/Gate/Counted.antt =====
-- queue/gate.go: any gate, with a count of the admissions it has handed a callback for and of the
-- calls of those callbacks.
use load_shedding.Prelude.{ℕ, ◌+◌, ◌≡◌, Bool, true, false, Option, none, some, arith}
use load_shedding.Queue.Gate.{
  Gate, Installed, explicit, cpu, gate_allow, gate_done, set_gate_enabled,
}

pub record Counted (G : Type 0) : Type 0 where
  pub gate : G
  pub issued : ℕ
  pub called : ℕ

module _ {G D : Type 0} where
  abbrev pub count_issue : Counted G → G × Option D → Counted G × Option D
  count_issue c (g, none) = (record c { gate = g }, none)
  count_issue c (g, some d) = (record c { gate = g; issued = c.issued + 1 }, some d)

  abbrev pub counted : Gate G D → Gate (Counted G) D
  counted ops = record {
    allow = λ c. count_issue c (ops.allow c.gate);
    done = λ d ok c. record c { gate = ops.done d ok c.gate; called = c.called + 1 };
    set_enabled = λ on c. record c { gate = ops.set_enabled on c.gate };
    enabled = λ c. ops.enabled c.gate;
  }

-- A token whose callback is not `noopDone`.
abbrev pub is_open : {D : Type 0} → Option D → ℕ
is_open none = 0
is_open (some _) = 1

-- The counts of the gate that a pool holds.
abbrev pub issued : {G : Type 0} → Option (Installed (Counted G)) → ℕ
issued (some (explicit c)) = c.issued
issued _ = 0

abbrev pub called : {G : Type 0} → Option (Installed (Counted G)) → ℕ
called (some (explicit c)) = c.called
called _ = 0

abbrev pub is_explicit : {G : Type 0} → Option (Installed G) → Bool
is_explicit (some (explicit _)) = true
is_explicit _ = false

-- The weight of what `gate_allow` answers.
abbrev pub is_open_answer : {D : Type 0} → Option (Option D) → ℕ
is_open_answer none = 0
is_open_answer (some token) = is_open token

-- What an operation does to the counts of an explicit gate.
pub record Counts {G : Type 0} (g g' : Option (Installed (Counted G))) (more done : ℕ)
    : Type 0 where
  pub still : is_explicit g' ≡ true
  pub more_issued : issued g' ≡ issued g + more
  pub more_called : called g' ≡ called g + done

module _ {G D : Type 0} (ops : Gate G D) where
  pub gate_allow-Counts :
      (g : Option (Installed (Counted G)))
      → is_explicit g ≡ true
      → Counts g (gate_allow (counted ops) g).0 (is_open_answer (gate_allow (counted ops) g).1) 0
  unfolding gate_allow
  gate_allow-Counts none h = cc
  gate_allow-Counts (some (explicit c)) h = ground arith
  gate_allow-Counts (some (cpu c)) h = cc

  pub gate_done-Counts :
      (token : Option D) (ok : Bool) (g : Option (Installed (Counted G)))
      → is_explicit g ≡ true
      → Counts g (gate_done (counted ops) token ok g) 0 (is_open token)
  unfolding gate_done
  gate_done-Counts none ok g h = ground arith
  gate_done-Counts (some d) ok none h = cc
  gate_done-Counts (some d) ok (some (explicit c)) h = ground arith
  gate_done-Counts (some d) ok (some (cpu c)) h = cc

  pub set_gate_enabled-Counts :
      (on : Bool) (g : Option (Installed (Counted G)))
      → is_explicit g ≡ true
      → Counts g (set_gate_enabled (counted ops) on g) 0 0
  unfolding set_gate_enabled
  set_gate_enabled-Counts on none h = cc
  set_gate_enabled-Counts on (some (explicit c)) h = ground arith
  set_gate_enabled-Counts on (some (cpu c)) h = cc
