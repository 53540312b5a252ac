-- ===== src/Sentinel/Tests.antt =====
-- A Sentinel that lets in up to two entries at a time, over thousandths in place of float64.
use load_shedding.Prelude.{ℕ, ◌+◌, ◌-◌, ◌≡◌, true, none, some, [], ◌∷◌, ltb, if◌then◌else◌}
use load_shedding.Prelude.Float.Fixed.{fixed}
use load_shedding.Http.{Script, header, panicked}
use load_shedding.Http.Writer.{sent_status}
use load_shedding.Queue.Cpu.Text.{codes}
use load_shedding.Sentinel.{SentinelApi, Config, default_config, handle, new, ensure_init, allow}
use load_shedding.Sentinel.Counted.{CountedWorld, counted_api}
use load_shedding.Sentinel.Once.{after_new, new_process, all_rules, after_new-once}
use load_shedding.Sentinel.Entries.{handle_exits}

abbrev api : SentinelApi fixed ℕ ℕ ℕ
api = record {
  init_default = λ n. (n, none);
  load_rules = λ rules n. (n, none);
  entry = λ resource n. if ltb n 2 then (n + 1, some n) else (n, none);
  exit = λ e n. n - 1;
}

abbrev config : Config fixed
config = default_config fixed

after_new-once_example :
    let q = after_new fixed api (config ∷ config ∷ []) (new_process fixed 0) in
    (q.world.inits ≡ 1) × (q.world.loads ≡ all_rules fixed (config ∷ config ∷ []))
unfolding new ensure_init
after_new-once_example = after_new-once fixed api (config ∷ config ∷ []) 0

abbrev world : CountedWorld fixed ℕ
world = record { inner = 1; inits = 1; loads = []; entered = 5; exited = 4 }

abbrev script : Script
script = record { calls = header 404 ∷ []; ending = panicked }

handle_exits_example :
    let r =
      handle fixed
        (counted_api fixed api)
        (record { resource = codes "go-zero-inbound" })
        script
        world in
    (r.0.entered ≡ 6) × (r.0.exited ≡ 5) × (sent_status r.1.response ≡ 404) × (r.1.panics ≡ true)
unfolding allow
handle_exits_example =
    handle_exits fixed api (record { resource = codes "go-zero-inbound" }) script world
