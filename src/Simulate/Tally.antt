-- ===== src/Simulate/Tally.antt =====
-- simulate/simulate.go: the counters of a run count its requests by their status.
use load_shedding.Prelude.{ℕ, ◌+◌, ◌≡◌, refl, List, [], ◌∷◌, if◌then◌else◌, ◌==◌, length, arith}
use load_shedding.Prelude.Int.{pos}
use load_shedding.Prelude.Time.{Duration, eqb_ℤ}
use load_shedding.Prelude.Word.{wrap, incr-wrap_pos}
use load_shedding.Prelude.Bag.{total, Pick-total, total-append}
use load_shedding.Simulate.{
  Scenario, Answer, Run, tick, finish, finish_request, append_next, append_latency, Step, tick_step,
  finish_step, append_step, Reach, init, next,
}

abbrev pub served_one : Answer → ℕ
served_one a = if a.code == 200 then 1 else 0

abbrev pub shed_one : Answer → ℕ
shed_one a = if a.code == 503 then 1 else 0

abbrev pub other_one : Answer → ℕ
other_one a = if a.code == 200 then 0 else if a.code == 503 then 0 else 1

abbrev pub same_time : Duration → Duration → ℕ
same_time d x = if eqb_ℤ d x then 1 else 0

-- The latencies of the answers with status 200.
abbrev pub served_latencies : List Answer → List Duration
served_latencies [] = []
served_latencies (a ∷ older) =
    let rest = served_latencies older in if a.code == 200 then a.latency ∷ rest else rest

-- The counters, exactly.
abbrev pub Tallied : Run → Type 0
Tallied r =
    (r.counters.sent ≡ wrap (pos (r.running + length r.answers)))
    × (r.counters.served ≡ wrap (pos (total served_one r.answers)))
    × (r.counters.shed ≡ wrap (pos (total shed_one r.answers)))
    × (r.counters.other ≡ wrap (pos (total other_one r.answers)))
    × ((d : Duration)
        → total (same_time d) r.counters.latencies + total (same_time d) r.appending
          ≡ total (same_time d) (served_latencies r.answers))

Step-Tallied : {r t : Run} → Step r t → Tallied r → Tallied t
unfolding tick finish finish_request append_next append_latency
Step-Tallied {r} (tick_step now h) v = ground (arith, incr-wrap_pos (r.running + length r.answers))
Step-Tallied {r} (finish_step a h) v = ground (
  arith,
  incr-wrap_pos (total served_one r.answers),
  incr-wrap_pos (total shed_one r.answers),
  incr-wrap_pos (total other_one r.answers),
)
Step-Tallied {r} (append_step d {rest} p) v = (
  v.0,
  v.1,
  v.2,
  v.3,
  λ x. ground (
    arith,
    v.4 x,
    Pick-total (same_time x) p,
    total-append (same_time x) r.counters.latencies (d ∷ []),
  ),
)

each_once :
    (answers : List Answer)
    → total served_one answers + total shed_one answers + total other_one answers ≡ length answers
each_once [] = refl
each_once (a ∷ older) = ground (arith, each_once older)

Reach-Tallied : {sc : Scenario} {r : Run} → Reach sc r → Tallied r
unfolding wrap
Reach-Tallied (init now) = (refl, refl, refl, refl, λ d. refl)
Reach-Tallied (next r st) = Step-Tallied st (Reach-Tallied r)

-- However the requests of a run overlap and whatever they are answered, at every moment each issued
-- request is under way or has been counted exactly once: as served at status 200, as shed at 503, and
-- else as other. The counters hold these numbers modulo 2^64. Every latency stands among the recorded
-- ones and those about to be recorded as often as among the requests served.
pub run-Tallied :
    {sc : Scenario} {r : Run}
    → Reach sc r
    → Tallied r
      × (total served_one r.answers + total shed_one r.answers + total other_one r.answers
          ≡ length r.answers)
run-Tallied {r = r} h = (Reach-Tallied h, each_once r.answers)
