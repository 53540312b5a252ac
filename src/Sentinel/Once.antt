-- ===== src/Sentinel/Once.antt =====
-- sentinel/shedder.go: the library is initialized once, and rules are loaded only if that went well.
use load_shedding.Prelude.{
  Bool-cases, inl, inr, ◌+◌, ◌≡◌, refl, Bool, true, false, Option, none, some, List, [], ◌∷◌, arith,
  if◌then◌else◌,
}
use load_shedding.Prelude.Float.{Float64}
use load_shedding.Sentinel.{
  Config, Rule, SentinelApi, Process, build_rules, new, ensure_init, initialized, loaded,
  started_with,
}
use load_shedding.Sentinel.Counted.{CountedWorld, counted_api}

abbrev pub is_some : {E : Type 0} → Option E → Bool
is_some none = false
is_some (some _) = true

true_or_false : {b : Bool} → b ≡ true → b ≡ false → ⊥
true_or_false e h = ground arith

module _ (fl : Float64) where
  abbrev pub new_process : {W E : Type 0} → W → Process (CountedWorld fl W) E
  new_process w = record {
    world = record { inner = w; inits = 0; loads = []; entered = 0; exited = 0 };
    started = false;
    init_err = none;
  }

  abbrev pub is_called : List (Config fl) → Bool
  is_called [] = false
  is_called (_ ∷ _) = true

  -- The rules of each configuration.
  abbrev pub all_rules : List (Config fl) → List (List (Rule fl))
  all_rules [] = []
  all_rules (cfg ∷ older) = build_rules fl cfg ∷ all_rules older

  module _ {W E N : Type 0} (api : SentinelApi fl W E N) where
    -- A process after these calls of `New`, the latest first.
    abbrev pub after_new :
        List (Config fl) → Process (CountedWorld fl W) E → Process (CountedWorld fl W) E
    after_new [] p = p
    after_new (cfg ∷ older) p = (new fl (counted_api fl api) cfg (after_new older p)).0

    new_once :
        (cfg : Config fl) (p : Process (CountedWorld fl W) E)
        → let q = (new fl (counted_api fl api) cfg p).0 in
          (q.started ≡ true)
          × (q.world.inits ≡ p.world.inits + (if p.started then 0 else 1))
          × (q.world.loads
              ≡ (if is_some q.init_err then p.world.loads else build_rules fl cfg ∷ p.world.loads))
          × (p.started ≡ true → q.init_err ≡ p.init_err)
          × (p.started ≡ false → q.init_err ≡ (api.init_default p.world.inner).1)
    unfolding new ensure_init initialized loaded started_with
    new_once cfg p = ground arith

    record Inv (w : W) (cfgs : List (Config fl)) (q : Process (CountedWorld fl W) E) : Type 0 where
      started : q.started ≡ is_called cfgs
      inits : q.world.inits ≡ (if q.started then 1 else 0)
      loads : q.world.loads ≡ (if is_some q.init_err then [] else all_rules cfgs)
      fresh : q.started ≡ false → (q.world.inner ≡ w) × (cfgs ≡ []) × (q.init_err ≡ none)
      failed : q.started ≡ true → q.init_err ≡ (api.init_default w).1

    new-Inv :
        (w : W) (cfg : Config fl) (older : List (Config fl)) (p : Process (CountedWorld fl W) E)
        → Inv w older p
        → Inv w (cfg ∷ older) (new fl (counted_api fl api) cfg p).0
    new-Inv w cfg older p v =
        let (started, inits, loads, kept, found) = new_once cfg p in
        elim (Bool-cases p.started) [
          | inl e ↦
              let same = kept e in
              record {
                started = started;
                inits = ground (arith, v.inits);
                loads = ground (arith, v.loads);
                fresh = λ h. absurd (true_or_false started h);
                failed = λ h. ground (arith, same, v.failed e);
              }
          | inr e ↦
              let (untouched, none_yet, no_error) = v.fresh e in
              record {
                started = started;
                inits = ground (arith, v.inits);
                loads = ground (arith, v.loads);
                fresh = λ h. absurd (true_or_false started h);
                failed = λ h. ground (arith, found e, untouched);
              }
        ]

    after_new-Inv : (cfgs : List (Config fl)) (w : W) → Inv w cfgs (after_new cfgs (new_process w))
    after_new-Inv [] w = record {
      started = refl;
      inits = refl;
      loads = refl;
      fresh = λ e. (refl, refl, refl);
      failed = λ e. absurd (true_or_false e refl);
    }
    after_new-Inv (cfg ∷ older) w =
        new-Inv w cfg older (after_new older (new_process w)) (after_new-Inv older w)

    -- Whatever calls of `New` a process makes, and whatever they answer, Sentinel is initialized once, by
    -- the first of them. If `InitDefault` answers that call with an error, no rules are ever loaded; if
    -- not, each call loads the rules of its configuration, in order.
    pub after_new-once :
        (cfgs : List (Config fl)) (w : W)
        → let q = after_new cfgs (new_process w) in
          (q.world.inits ≡ (if is_called cfgs then 1 else 0))
          × (q.world.loads ≡ (if is_some (api.init_default w).1 then [] else all_rules cfgs))
    after_new-once cfgs w =
        let v = after_new-Inv cfgs w in
        let q = after_new cfgs (new_process w) in
        (
          ground (arith, v.started, v.inits),
          elim (Bool-cases q.started) [
            | inl e ↦ ground (arith, v.loads, v.failed e)
            | inr e ↦ ground (arith, v.loads, (v.fresh e).1, (v.fresh e).2)
          ],
        )
