-- ===== src/GoZero.antt =====
-- gozero/gate.go and gozero/gozero.go: go-zero's adaptive shedder as a gate of the queues, and as a
-- middleware. The shedder itself is a parameter.
pub mod Promises
mod Tests
use load_shedding.Prelude.{ℕ, Bool, true, false, not, Option, none, some, if◌then◌else◌, leb, []}
use load_shedding.Http.{
  Script, Ending, returned, panicked, apply, new_code_writer, shed_response,
  status_internal_server_error,
}
use load_shedding.Limits.Handler.{Served, goes_on}
use load_shedding.Queue.Gate.{Gate}

-- The interface `load.Shedder` on a state `S`, with promises of type `P`; `none` is an error.
pub record LoadShedder (S P : Type 0) : Type 0 where
  pub allow : S → S × Option P
  pub pass : P → S → S
  pub fail : P → S → S

pub record GozeroGate (S : Type 0) : Type 0 where
  pub shedder : S
  pub on : Bool

-- `NewGate`, around a new shedder.
abbrev pub new_gozero_gate : {S : Type 0} → S → GozeroGate S
new_gozero_gate shedder = record { shedder = shedder; on = true }

-- Whether the deferred function of `Handler` calls `Pass`.
unfoldable pub succeeded : Ending → ℕ → Bool
succeeded panicked code = false
succeeded returned code = not (leb status_internal_server_error code)

module _ {S P : Type 0} (load : LoadShedder S P) where
  open load use {allow, pass, fail}

  unfoldable pub resolve : P → Bool → S → S
  resolve p success s = if success then pass p s else fail p s

  gozero_answer : GozeroGate S → S × Option P → GozeroGate S × Option (Option P)
  gozero_answer g (s, none) = (record g { shedder = s }, none)
  gozero_answer g (s, some p) = (record g { shedder = s }, some (some p))

  -- The callback is a promise, or `none` for the one of a disabled gate, which does nothing.
  unfoldable pub gozero_allow : GozeroGate S → GozeroGate S × Option (Option P)
  unfolding gozero_answer
  gozero_allow g = if not g.on then (g, some none) else gozero_answer g (allow g.shedder)

  unfoldable pub gozero_done : Option P → Bool → GozeroGate S → GozeroGate S
  unfolding resolve
  gozero_done none success g = g
  gozero_done (some p) success g = record g { shedder = resolve p success g.shedder }

  abbrev pub gozero_gate : Gate (GozeroGate S) (Option P)
  gozero_gate = record {
    allow = gozero_allow;
    done = gozero_done;
    set_enabled = λ on g. record g { on = on };
    enabled = λ g. g.on;
  }

  serve : Script → S × Option P → S × Served
  unfolding resolve succeeded
  serve script (s, none) = (s, record { response = shed_response; panics = false })
  serve script (s, some p) =
      let w = apply script.calls (new_code_writer []) in
      (
        resolve p (succeeded script.ending w.code) s,
        record { response = w.underlying; panics = goes_on script.ending },
      )

  -- A request through `Handler`, with no other request in between.
  unfoldable pub handle : Script → S → S × Served
  unfolding serve
  handle script s = serve script (allow s)
