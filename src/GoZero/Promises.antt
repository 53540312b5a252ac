-- ===== src/GoZero/Promises.antt =====
-- gozero/gate.go and gozero/gozero.go: each promise of go-zero's shedder is resolved exactly once.
use load_shedding.Prelude.{
  ℕ, ◌+◌, ◌≡◌, Bool, true, false, not, Option, none, some, arith, if◌then◌else◌, ◌&&◌, ltb,
}
use load_shedding.Http.{Script, Ending, returned, panicked}
use load_shedding.Http.Writer.{apply-code, first_status, sent_status, final_status}
use load_shedding.GoZero.{
  LoadShedder, GozeroGate, gozero_allow, gozero_done, handle, serve, succeeded, resolve,
  gozero_answer,
}

-- Any shedder, with counts of the promises that it has made, and of the calls of `Pass` and `Fail`.
pub record CountedShedder (S : Type 0) : Type 0 where
  pub shedder : S
  pub issued : ℕ
  pub passed : ℕ
  pub failed : ℕ

abbrev pub is_returned : Ending → Bool
is_returned returned = true
is_returned panicked = false

abbrev pub is_some : {A : Type 0} → Option A → Bool
is_some none = false
is_some (some _) = true

module _ {S P : Type 0} where
  abbrev pub count_promise : CountedShedder S → S × Option P → CountedShedder S × Option P
  count_promise c (s, none) = (record c { shedder = s }, none)
  count_promise c (s, some p) = (record c { shedder = s; issued = c.issued + 1 }, some p)

  abbrev pub counted_load : LoadShedder S P → LoadShedder (CountedShedder S) P
  counted_load load = record {
    allow = λ c. count_promise c (load.allow c.shedder);
    pass = λ p c. record c { shedder = load.pass p c.shedder; passed = c.passed + 1 };
    fail = λ p c. record c { shedder = load.fail p c.shedder; failed = c.failed + 1 };
  }

  module _ (load : LoadShedder S P) where
    -- The callback of an admission resolves its promise once, with `Pass` for a success and with `Fail`
    -- otherwise; while the gate is disabled nothing is asked of the shedder, nor told to it.
    gozero_done-gozero_allow :
        (g : GozeroGate (CountedShedder S)) (success : Bool) (token : Option P)
        → (gozero_allow (counted_load load) g).1 ≡ some token
        → let s =
            (gozero_done
              (counted_load load)
              token
              success
              (gozero_allow (counted_load load) g).0).shedder in
          (s.issued ≡ g.shedder.issued + (if g.on then 1 else 0))
          × (s.passed ≡ g.shedder.passed + (if g.on && success then 1 else 0))
          × (s.failed ≡ g.shedder.failed + (if g.on && not success then 1 else 0))
    unfolding gozero_allow gozero_done resolve gozero_answer
    gozero_done-gozero_allow g success token e = ground arith

    -- The middleware asks the shedder once. A request that it admits has its promise resolved once: with
    -- `Pass` if the handler returned and the first status that it set, or 200 where it set none, is below
    -- 500, else with `Fail`; the client is sent that status, or 200 where it is informational. A request
    -- that it refuses is answered with status 503 and resolves nothing.
    pub handle_resolves :
        (script : Script) (c : CountedShedder S)
        → let admitted = is_some (load.allow c.shedder).1 in
          let good = is_returned script.ending && ltb (first_status script.calls) 500 in
          let r = handle (counted_load load) script c in
          (r.0.issued ≡ c.issued + (if admitted then 1 else 0))
          × (r.0.passed ≡ c.passed + (if admitted && good then 1 else 0))
          × (r.0.failed ≡ c.failed + (if admitted && not good then 1 else 0))
          × (sent_status r.1.response
              ≡ (if admitted then final_status (first_status script.calls) else 503))
    unfolding handle serve resolve succeeded
    handle_resolves script c = ground (arith, apply-code script.calls)
