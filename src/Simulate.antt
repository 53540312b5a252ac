-- ===== src/Simulate.antt =====
-- simulate/simulate.go: a run of the load simulator against a shedder. Each request is a goroutine; what
-- the shedder answers to it, and when, is up to the run.
pub mod Tally
pub mod Sorted
pub mod Percentile
pub mod Command
mod Tests
use load_shedding.Prelude.{
  ℕ, ◌+◌, ◌-◌, ◌<◌, ◌≡◌, Bool, true, false, Option, none, some, List, [], ◌∷◌, ◌++◌, if◌then◌else◌,
  ◌==◌, length, get_elem?,
}
use load_shedding.Prelude.Bag.{Pick}
use load_shedding.Prelude.Int.{ℤ, pos, negsuc, ltb_ℤ}
use load_shedding.Prelude.Word.{incr, quot}
use load_shedding.Prelude.Time.{Time, Duration, after, eqb_ℤ}
use load_shedding.Prelude.Float.{Float64}
use load_shedding.Http.{status_ok, status_service_unavailable}
use load_shedding.Queue.Cpu.Text.{Text}

pub record Scenario : Type 0 where
  pub duration : Duration
  pub rps : ℤ
  pub service_time : Duration

pub record Result : Type 0 where
  pub name : Text
  pub sent : ℤ
  pub served : ℤ
  pub shed : ℤ
  pub other : ℤ
  pub p50 : Duration
  pub p95 : Duration
  pub p99 : Duration
  pub wall : Duration

-- What one request got, and how long it took.
pub record Answer : Type 0 where
  pub code : ℕ
  pub latency : Duration

-- The variables that the goroutines of a run share.
pub record Counters : Type 0 where
  pub sent : ℤ
  pub served : ℤ
  pub shed : ℤ
  pub other : ℤ
  pub latencies : List Duration

abbrev pub no_counts : Counters
no_counts = record { sent = pos 0; served = pos 0; shed = pos 0; other = pos 0; latencies = [] }

-- The period of the ticker.
unfoldable pub interval_of : Scenario → Duration
interval_of sc =
    let rps = if ltb_ℤ sc.rps (pos 1) then pos 1 else sc.rps in
    let interval = quot (pos 1_000_000_000) rps in
    if ltb_ℤ (pos 0) interval then interval else pos 1000

-- The switch on the recorded status, up to the lock around the latencies.
unfoldable pub finish_request : Answer → Counters → Counters
finish_request a c =
    if a.code == status_ok
    then record c { served = incr c.served }
    else if a.code == status_service_unavailable
    then record c { shed = incr c.shed }
    else record c { other = incr c.other }

-- The critical section of a served request.
unfoldable pub append_latency : Duration → Counters → Counters
append_latency d c = record c { latencies = c.latencies ++ d ∷ [] }

-- `sort.Slice` by `<`.
unfoldable pub insert : Duration → List Duration → List Duration
insert d [] = d ∷ []
insert d (x ∷ xs) = let rest = insert d xs in if ltb_ℤ x d then x ∷ rest else d ∷ x ∷ xs

unfoldable pub sort_latencies : List Duration → List Duration
unfolding insert
sort_latencies [] = []
sort_latencies (d ∷ rest) = insert d (sort_latencies rest)

-- A run in progress: whether the loop over the ticker has ended, how many requests are before the switch,
-- and the latencies of the served ones that are before the lock.
pub record Run : Type 0 where
  pub counters : Counters
  pub deadline : Time
  pub over : Bool
  pub running : ℕ
  pub appending : List Duration
  -- The answers so far, the latest first.
  pub answers : List Answer

-- `Run`, up to the loop.
abbrev pub start_run : Scenario → Time → Run
start_run sc now = record {
  counters = no_counts;
  deadline = after now sc.duration;
  over = false;
  running = 0;
  appending = [];
  answers = [];
}

-- The body of the loop at a tick, and the two actions at the end of a request.
unfoldable pub tick : Time → Run → Run
tick now r =
    let issued = record r.counters { sent = incr r.counters.sent } in
    if ltb_ℤ r.deadline now
    then record r { over = true }
    else record r { counters = issued; running = r.running + 1 }

unfoldable pub finish : Answer → Run → Run
unfolding finish_request
finish a r = record r {
  counters = finish_request a r.counters;
  running = r.running - 1;
  appending = if a.code == status_ok then a.latency ∷ r.appending else r.appending;
  answers = a ∷ r.answers;
}

unfoldable pub append_next : Duration → List Duration → Run → Run
unfolding append_latency
append_next d rest r = record r { counters = append_latency d r.counters; appending = rest }

-- One action of the loop or of a goroutine.
pub data Step (r : Run) : Run → Type 0 where
  tick_step : (now : Time) → r.over ≡ false → Step r (tick now r)
  finish_step : (a : Answer) → 0 < r.running → Step r (finish a r)
  append_step :
      (d : Duration) {rest : List Duration}
      → Pick d r.appending rest
      → Step r (append_next d rest r)

pub data Reach (sc : Scenario) : Run → Type 0 where
  init : (now : Time) → Reach sc (start_run sc now)
  next : {r t : Run} → Reach sc r → Step r t → Reach sc t

-- `sorted[idx]`, which panics out of range.
abbrev pub at : List Duration → ℤ → Option Duration
at xs (pos i) = get_elem? xs i
at xs (negsuc i) = none

abbrev pub is_empty : List Duration → Bool
is_empty [] = true
is_empty (_ ∷ _) = false

abbrev pub fill :
    Text → Counters → Duration → Option Duration → Option Duration → Option Duration → Option Result
fill name c wall (some p50) (some p95) (some p99) = some (record {
  name = name;
  sent = c.sent;
  served = c.served;
  shed = c.shed;
  other = c.other;
  p50 = p50;
  p95 = p95;
  p99 = p99;
  wall = wall;
})
fill name c wall _ _ _ = none

module _ (fl : Float64) where
  unfoldable pub percentile : List Duration → fl.F → Option Duration
  percentile sorted p =
      if is_empty sorted
      then some (pos 0)
      else at sorted (fl.to_int (fl.mul (fl.of_int (pos (length sorted - 1))) p))

  -- The end of `Run`, once no request is under way; `none` is a panic.
  unfoldable pub report : Text → Duration → Counters → Option Result
  unfolding percentile sort_latencies
  report name wall c =
      let sorted = sort_latencies c.latencies in
      fill name c wall (percentile sorted (fl.ratio (pos 1) (pos 2)))
        (percentile sorted (fl.ratio (pos 19) (pos 20)))
        (percentile sorted (fl.ratio (pos 99) (pos 100)))

  unfoldable pub shed_rate : Result → fl.F
  shed_rate r =
      if eqb_ℤ r.sent (pos 0)
      then fl.of_int (pos 0)
      else fl.div (fl.of_int r.shed) (fl.of_int r.sent)
