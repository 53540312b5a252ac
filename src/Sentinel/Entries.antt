-- ===== src/Sentinel/Entries.antt =====
-- sentinel/shedder.go: each entry is exited, and a blocked request is answered with status 503.
use load_shedding.Prelude.{◌+◌, ◌≡◌, false, arith, if◌then◌else◌}
use load_shedding.Prelude.Float.{Float64}
use load_shedding.Http.{Script}
use load_shedding.Http.Writer.{sent_status}
use load_shedding.Limits.Handler.{goes_on}
use load_shedding.Sentinel.{SentinelApi, Shedder, allow, handle, serve}
use load_shedding.Sentinel.Counted.{CountedWorld, counted_api}
use load_shedding.Sentinel.Once.{is_some}

module _ (fl : Float64) {W E N : Type 0} where
  -- The middleware asks Sentinel once. A request that Sentinel lets in gets the answer of its handler, whose
  -- panic goes on, and its entry is exited exactly once in either case. A request that Sentinel blocks is
  -- answered with status 503, without a panic, and nothing is exited.
  pub handle_exits :
      (api : SentinelApi fl W E N) (s : Shedder) (script : Script) (c : CountedWorld fl W)
      → let admitted = is_some (allow fl api s c.inner).1 in
        let r = handle fl (counted_api fl api) s script c in
        (r.0.entered ≡ c.entered + (if admitted then 1 else 0))
        × (r.0.exited ≡ c.exited + (if admitted then 1 else 0))
        × (sent_status r.1.response ≡ (if admitted then sent_status script.calls else 503))
        × (r.1.panics ≡ (if admitted then goes_on script.ending else false))
  unfolding handle serve allow
  handle_exits api s script c = ground arith
