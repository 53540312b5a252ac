-- ===== src/Queue/Pool/Stop.antt =====
-- queue/pool.go: `Stop` waits for the workers with `wg.Wait`, and they all return.
use load_shedding.Prelude.{
  ℕ, ◌+◌, ◌*◌, ◌<◌, ◌≤◌, ◌≡◌, refl, ◌⊎◌, inl, inr, true, some, [], arith, length, dec_lt,
  if◌then◌else◌, ◌==◌,
}
use load_shedding.Prelude.Bag.{Pick-length, Pick-head, List-cases, empty_of_length}
use load_shedding.Prelude.Int.{ℤ}
use load_shedding.Queue.Gate.{Gate}
use load_shedding.Queue.Task.{panicked}
use load_shedding.Queue.Pool.{
  Config, Pool, new, try_acquire, release, count_accepted, run_begin, run_end, close, arrive, shed,
  send, task_end,
}
use load_shedding.Queue.Pool.System.{
  System, start, arrived, offered, Step, arrive_step, acquire_step, shed_step, send_step,
  count_step, receive_step, exit_step, begin_step, end_step, leave_step, release_step, close_step,
  toggle_step, Reach, init, next,
}

module _ {G D : Type 0} where
  -- Workers that have not returned.
  abbrev pub on_duty : System G D → ℕ
  on_duty s = s.idle + length s.taken + length s.executing + s.ending + s.releasing

  -- A bound on what the workers still do: each queued task and each worker that has not returned count
  -- with the actions that are left to them.
  abbrev pub work_left : System G D → ℕ
  work_left s =
      5 * length s.pool.tasks
      + s.idle
      + 5 * length s.taken
      + 4 * length s.executing
      + 3 * s.ending
      + 2 * s.releasing

  module _ (ops : Gate G D) where
    -- Whether a worker acts.
    abbrev pub by_worker : {s t : System G D} → Step ops s t → ℕ
    by_worker (receive_step job rest h e) = 1
    by_worker (exit_step h e c) = 1
    by_worker (begin_step job rest p) = 1
    by_worker (end_step job outcome rest p) = 1
    by_worker (leave_step h) = 1
    by_worker (release_step h) = 1
    by_worker _ = 0

    -- What may follow a state, with the number of actions of workers on the way.
    pub data Onward (s : System G D) : System G D → ℕ → Type 0 where
      here : Onward s s 0
      onward :
          {t u : System G D} {count : ℕ}
          → Onward s t count
          → (st : Step ops t u) → Onward s u (by_worker st + count)

    -- Some worker can act.
    abbrev pub Enabled : System G D → Type 0
    Enabled s = (t : System G D) × (st : Step ops s t) × (by_worker st ≡ 1)

    -- On a closed pool each action of a worker leaves less to do, and no other action adds work.
    Step-work :
        {s t : System G D} (st : Step ops s t)
        → s.pool.closed ≡ true
        → (t.pool.closed ≡ true) × (by_worker st + work_left t ≤ work_left s)
    unfolding arrive arrived try_acquire shed send offered count_accepted release task_end run_begin
        run_end close
    Step-work (arrive_step task) c = ground arith
    Step-work (acquire_step job rest p e) c = ground arith
    Step-work (shed_step job rest p h) c = ground arith
    Step-work (send_step job rest p h) c = ground arith
    Step-work (count_step h) c = ground arith
    Step-work (receive_step job rest h e) c = ground arith
    Step-work (exit_step h e k) c = ground arith
    Step-work (begin_step job rest p) c = ground (arith, Pick-length p)
    Step-work (end_step job outcome rest p) c = ground (arith, Pick-length p)
    Step-work (leave_step h) c = ground arith
    Step-work (release_step h) c = ground arith
    Step-work close_step c = ground arith
    Step-work (toggle_step on) c = ground arith

    Onward-work :
        {s t : System G D} {count : ℕ}
        → Onward s t count
        → s.pool.closed ≡ true
        → (t.pool.closed ≡ true) × (count + work_left t ≤ work_left s)
    Onward-work here c = (c, omega arith)
    Onward-work (onward r st) c =
        let (closed, less) = Onward-work r c in
        let (still, fewer) = Step-work st closed in (still, omega (arith, less, fewer))

    -- A worker returns only where the pool is closed and no task is queued; and there are workers.
    record Inv (s : System G D) : Type 0 where
      left : (if s.exited == 0 then 0 else if s.pool.closed then length s.pool.tasks else 1) ≡ 0
      staffed : 0 < on_duty s + s.exited

    Step-Inv : {s t : System G D} → Step ops s t → Inv s → Inv t
    unfolding arrive arrived try_acquire shed send offered count_accepted release task_end run_begin
        run_end close
    Step-Inv (arrive_step task) v = ground arith
    Step-Inv (acquire_step job rest p e) v = ground arith
    Step-Inv (shed_step job rest p h) v = ground arith
    Step-Inv (send_step job rest p h) v = ground arith
    Step-Inv (count_step h) v = ground arith
    Step-Inv (receive_step job rest h e) v = ground arith
    Step-Inv (exit_step h e k) v = ground arith
    Step-Inv (begin_step job rest p) v = ground (arith, Pick-length p)
    Step-Inv (end_step job outcome rest p) v = ground (arith, Pick-length p)
    Step-Inv (leave_step h) v = ground arith
    Step-Inv (release_step h) v = ground arith
    Step-Inv close_step v = ground arith
    Step-Inv (toggle_step on) v = ground arith

    init-Inv :
        (cfg : Config G) (usage : ℕ → ℤ) {p : Pool G D} → new cfg usage ≡ some p → Inv (start p)
    unfolding new
    init-Inv cfg usage e = ground arith

    Reach-Inv : {cfg : Config G} {s : System G D} → Reach ops cfg s → Inv s
    Reach-Inv {cfg} (init usage e) = init-Inv cfg usage e
    Reach-Inv (next r st) = Step-Inv st (Reach-Inv r)

    Onward-Reach :
        {cfg : Config G} {s t : System G D} {count : ℕ}
        → Reach ops cfg s
        → Onward s t count
        → Reach ops cfg t
    Onward-Reach r here = r
    Onward-Reach r (onward o st) = next (Onward-Reach r o) st

    -- A worker at the receive of a closed channel goes on, with a task or to its return.
    idle_can_act : (s : System G D) → 0 < s.idle → s.pool.closed ≡ true → Enabled s
    idle_can_act s h c = elim (List-cases s.pool.tasks) [
      | inl e ↦ (_, exit_step h e c, refl)
      | inr (job, rest, e) ↦ (_, receive_step job rest h e, refl)
    ]

    can_act : (s : System G D) → s.pool.closed ≡ true → (on_duty s ≡ 0) ⊎ Enabled s
    can_act s c = elim (dec_lt 0 s.idle) [
      | yes h ↦ inr (idle_can_act s h c)
      | no h ↦ elim (dec_lt 0 s.ending) [
        | yes k ↦ inr (_, leave_step k, refl)
        | no k ↦ elim (dec_lt 0 s.releasing) [
          | yes l ↦ inr (_, release_step l, refl)
          | no l ↦ elim (List-cases s.taken) [
            | inr (job, rest, f) ↦ inr (_, begin_step job rest (Pick-head f), refl)
            | inl f ↦ elim (List-cases s.executing) [
              | inr (job, rest, g) ↦ inr (_, end_step job panicked rest (Pick-head g), refl)
              | inl g ↦ inl (ground (arith, f, g))
            ]
          ]
        ]
      ]
    ]

    -- `Stop` returns, if the tasks end. From any state of a closed pool that a new one reaches, however its
    -- threads go on, its workers act at most `work_left` times more, where the end of a task is an action;
    -- and at every moment either some worker can act, or all have returned and no task is queued.
    pub pool_stop_returns :
        {cfg : Config G} {s t : System G D} {count : ℕ}
        → Reach ops cfg s
        → s.pool.closed ≡ true
        → Onward s t count
        → (count + work_left t ≤ work_left s)
          × (((on_duty t ≡ 0) × (t.pool.tasks ≡ [])) ⊎ Enabled t)
    pool_stop_returns {t = t} r c o =
        let (closed, less) = Onward-work o c in
        let v = Reach-Inv (Onward-Reach r o) in
        (
          less,
          elim (can_act t closed) [
            | inl gone ↦ inl (
              gone,
              empty_of_length t.pool.tasks (ground (arith, v.left, v.staffed, gone, closed)),
            )
            | inr able ↦ inr able
          ],
        )
