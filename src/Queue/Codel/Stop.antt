-- ===== src/Queue/Codel/Stop.antt =====
-- queue/codel.go: `Stop` waits for the workers with `wg.Wait`, and they all return.
use load_shedding.Prelude.{
  ℕ, ◌+◌, ◌*◌, ◌<◌, ◌≤◌, ◌≡◌, refl, ◌⊎◌, inl, inr, true, List, [], ◌∷◌, arith, length, dec_lt,
}
use load_shedding.Prelude.Bag.{Pick-length, Pick-head, List-cases, empty_of_length}
use load_shedding.Prelude.Int.{pos}
use load_shedding.Prelude.Time.{Time}
use load_shedding.Prelude.Float.{Float64}
use load_shedding.Queue.Gate.{Gate}
use load_shedding.Queue.Task.{panicked}
use load_shedding.Queue.Codel.{
  CodelConfig, Item, worker_lock, arrive, enter, drop_callback, task_end, run_begin, run_end, close,
}
use load_shedding.Queue.Codel.System.{
  System, arrived, entered, worked, Step, arrive_step, enter_step, worker_step, drop_step,
  begin_step, end_step, leave_step, close_step, toggle_step,
}
use load_shedding.Queue.Codel.Bounds.{length-split_last}
use load_shedding.Queue.Codel.Wakeup.{
  ReachAsleep, next_asleep, asleep_after, IsAwake, on_duty, Reach-Inv,
}

module _ {G D : Type 0} where
  -- A bound on what the workers still do: each queued item and each worker that has not returned count
  -- with the actions that are left to them.
  abbrev pub work_left : System G D → ℕ
  work_left s =
      4 * length s.pool.buf
      + s.idle
      + 2 * length s.falling
      + 4 * length s.serving
      + 3 * length s.executing
      + 2 * s.ending

  module _ (fl : Float64) (ops : Gate G D) where
    -- Whether a worker acts.
    abbrev pub by_worker : {s t : System G D} → Step fl ops s t → ℕ
    by_worker (worker_step now h) = 1
    by_worker (drop_step it rest p) = 1
    by_worker (begin_step it rest p) = 1
    by_worker (end_step it outcome rest p) = 1
    by_worker (leave_step h) = 1
    by_worker _ = 0

    -- What may follow a state with so many sleepers: the state, its sleepers, and the number of actions of
    -- workers on the way.
    pub data Onward (s : System G D) (asleep : ℕ) : System G D → ℕ → ℕ → Type 0 where
      here : Onward s asleep s asleep 0
      onward :
          {t u : System G D} {sleepers count : ℕ}
          → Onward s asleep t sleepers count
          → (st : Step fl ops t u) → IsAwake fl ops st sleepers
          → Onward s asleep u (asleep_after fl ops st sleepers) (by_worker st + count)

    -- Some worker can act.
    abbrev pub Enabled : System G D → ℕ → Type 0
    Enabled s asleep =
        (t : System G D) × (st : Step fl ops s t) × IsAwake fl ops st asleep × (by_worker st ≡ 1)

    worked_work :
        (now : Time) (s : System G D) (buf : List (Item D))
        → s.pool.buf ≡ buf
        → 0 < s.idle
        → s.pool.closed ≡ true
        → ((worked (worker_lock fl now s.pool) s).pool.closed ≡ true)
          × (work_left (worked (worker_lock fl now s.pool) s) < work_left s)
    unfolding worker_lock worked
    worked_work now s [] e h c = ground arith
    worked_work now s (it ∷ rest) e h c = ground (arith, length-split_last {0} it rest)

    -- On a closed pool each action of a worker leaves less to do, and no other action adds work.
    Step-work :
        {s t : System G D} (st : Step fl ops s t)
        → s.pool.closed ≡ true
        → (t.pool.closed ≡ true) × (by_worker st + work_left t ≤ work_left s)
    unfolding arrive arrived enter entered drop_callback task_end run_begin run_end close
    Step-work (arrive_step task) c = ground arith
    Step-work {s} (enter_step now task token rest p) c = ground arith
    Step-work {s} (worker_step now h) c =
        let (closed, less) = worked_work now s s.pool.buf refl h c in (closed, omega (arith, less))
    Step-work (drop_step it rest p) c = ground (arith, Pick-length p)
    Step-work (begin_step it rest p) c = ground (arith, Pick-length p)
    Step-work (end_step it outcome rest p) c = ground (arith, Pick-length p)
    Step-work (leave_step h) c = ground arith
    Step-work close_step c = ground arith
    Step-work (toggle_step on) c = ground arith

    Onward-work :
        {s : System G D} {asleep : ℕ} {t : System G D} {sleepers count : ℕ}
        → Onward s asleep t sleepers count
        → s.pool.closed ≡ true
        → (t.pool.closed ≡ true) × (count + work_left t ≤ work_left s)
    Onward-work here c = (c, omega arith)
    Onward-work (onward r st h) c =
        let (closed, less) = Onward-work r c in
        let (still, fewer) = Step-work st closed in (still, omega (arith, less, fewer))

    Onward-ReachAsleep :
        {cfg : CodelConfig G} {s : System G D} {asleep : ℕ} {t : System G D} {sleepers count : ℕ}
        → ReachAsleep fl ops cfg s asleep
        → Onward s asleep t sleepers count
        → ReachAsleep fl ops cfg t sleepers
    Onward-ReachAsleep r here = r
    Onward-ReachAsleep r (onward o st h) = next_asleep (Onward-ReachAsleep r o) st h

    -- A worker with a task, or past it, or awake at the top of its loop can act.
    can_act : (s : System G D) (asleep : ℕ) → asleep ≡ 0 → (on_duty s ≡ 0) ⊎ Enabled s asleep
    can_act s asleep e = elim (dec_lt 0 s.idle) [
      | yes h ↦ inr (_, worker_step (pos 0) h, omega (arith, e), refl)
      | no h ↦ elim (dec_lt 0 s.ending) [
        | yes k ↦ inr (_, leave_step k, tt, refl)
        | no k ↦ elim (List-cases s.falling) [
          | inr (it, rest, f) ↦ inr (_, drop_step it rest (Pick-head f), tt, refl)
          | inl f ↦ elim (List-cases s.serving) [
            | inr (it, rest, g) ↦ inr (_, begin_step it rest (Pick-head g), tt, refl)
            | inl g ↦ elim (List-cases s.executing) [
              | inr (it, rest, l) ↦ inr (_, end_step it panicked rest (Pick-head l), tt, refl)
              | inl l ↦ inl (ground (arith, f, g, l))
            ]
          ]
        ]
      ]
    ]

    -- `Stop` returns, if the tasks end. From any state of a closed pool that a new one reaches, however its
    -- threads go on, its workers act at most `work_left` times more, where the end of a task is an action;
    -- and at every moment either some worker can act, or all have returned and the queue is empty.
    pub stop_returns :
        {cfg : CodelConfig G} {s : System G D} {asleep : ℕ} {t : System G D} {sleepers count : ℕ}
        → ReachAsleep fl ops cfg s asleep
        → s.pool.closed ≡ true
        → Onward s asleep t sleepers count
        → (count + work_left t ≤ work_left s)
          × (((on_duty t ≡ 0) × (t.pool.buf ≡ [])) ⊎ Enabled t sleepers)
    stop_returns {t = t} {sleepers = sleepers} r c o =
        let (closed, less) = Onward-work o c in
        let v = Reach-Inv fl ops (Onward-ReachAsleep r o) in
        (
          less,
          elim (can_act t sleepers (ground (arith, v.woken, closed))) [
            | inl gone ↦ inl (
              gone,
              empty_of_length t.pool.buf (ground (arith, v.left, v.attended, gone, closed)),
            )
            | inr able ↦ inr able
          ],
        )
