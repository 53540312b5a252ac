-- ===== src/GoZero/Tests.antt =====
-- A shedder that admits while fewer than two requests are in flight.
use load_shedding.Prelude.{ℕ, ◌+◌, ◌-◌, ◌≡◌, true, none, some, [], ◌∷◌, ltb, if◌then◌else◌}
use load_shedding.Http.{Script, header, body, returned}
use load_shedding.Http.Writer.{sent_status}
use load_shedding.GoZero.{LoadShedder, GozeroGate, handle, succeeded}
use load_shedding.GoZero.Promises.{CountedShedder, counted_load, handle_resolves}

abbrev load : LoadShedder ℕ ℕ
load = record {
  allow = λ n. if ltb n 2 then (n + 1, some n) else (n, none);
  pass = λ p n. n - 1;
  fail = λ p n. n - 1;
}

abbrev shedder : CountedShedder ℕ
shedder = record { shedder = 1; issued = 5; passed = 3; failed = 1 }

abbrev gate : GozeroGate (CountedShedder ℕ)
gate = record { shedder = shedder; on = true }

abbrev script : Script
script = record { calls = header 502 ∷ body [] ∷ []; ending = returned }

handle_resolves_example :
    let r = handle (counted_load load) script shedder in
    (r.0.issued ≡ 6) × (r.0.passed ≡ 3) × (r.0.failed ≡ 2) × (sent_status r.1.response ≡ 502)
unfolding succeeded
handle_resolves_example = handle_resolves load script shedder
