-- ===== src/Sentinel/Counted.antt =====
-- Any Sentinel with counts of what it is asked for, for statements about sentinel/shedder.go.
use load_shedding.Prelude.{ℕ, ◌+◌, Option, none, some, List, ◌∷◌}
use load_shedding.Prelude.Float.{Float64}
use load_shedding.Sentinel.{Rule, SentinelApi}

module _ (fl : Float64) where
  -- Any Sentinel, with the number of its initializations, the loads of rules, latest first, and the
  -- numbers of entries that it let in and that were exited.
  pub record CountedWorld (W : Type 0) : Type 0 where
    pub inner : W
    pub inits : ℕ
    pub loads : List (List (Rule fl))
    pub entered : ℕ
    pub exited : ℕ

  abbrev pub count_entry :
      {W N : Type 0} → CountedWorld W → W × Option N → CountedWorld W × Option N
  count_entry c (w, none) = (record c { inner = w }, none)
  count_entry c (w, some e) = (record c { inner = w; entered = c.entered + 1 }, some e)

  abbrev pub counted_api :
      {W E N : Type 0} → SentinelApi fl W E N → SentinelApi fl (CountedWorld W) E N
  counted_api api = record {
    init_default = λ c.
        let (w, e) = api.init_default c.inner in (record c { inner = w; inits = c.inits + 1 }, e);
    load_rules = λ rules c.
        let (w, e) = api.load_rules rules c.inner in
        (record c { inner = w; loads = rules ∷ c.loads }, e);
    entry = λ resource c. count_entry c (api.entry resource c.inner);
    exit = λ e c. record c { inner = api.exit e c.inner; exited = c.exited + 1 };
  }
