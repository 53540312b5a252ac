-- ===== src/Queue/Codel/Drain.antt =====
-- queue/codel.go: a worker after `Stop` drains the queue and returns.
use load_shedding.Prelude.{
  ℕ, zero, suc, ◌+◌, ◌<◌, ◌≡◌, refl, true, Option, none, some, List, [], ◌∷◌, arith, length,
  Bool-cases, inl, inr, ◌&&◌, sym, if◌then◌else◌,
}
use mathlib.Core.Path.{subst}
use load_shedding.Prelude.Bag.{total, count}
use load_shedding.Prelude.Time.{Time}
use load_shedding.Prelude.Float.{Float64}
use load_shedding.Queue.Gate.{Gate}
use load_shedding.Queue.Task.{Outcome}
use load_shedding.Queue.Codel.{
  CodelPool, Item, Decision, waits, exits, drops, serves, serve, worker_from, worker_lock,
  drop_callback, task_end, run_begin, run_end,
}
use load_shedding.Queue.Codel.Law.{should_drop}
use load_shedding.Queue.Codel.Bounds.{split_last-total, length-split_last}
use load_shedding.Queue.Codel.Fate.{is_task}

module _ {G D : Type 0} where
  handled : Item D → Option (List ℕ × CodelPool G D) → Option (List ℕ × CodelPool G D)
  handled it none = none
  handled it (some (ids, q)) = some (it.task ∷ ids, q)

  -- What one critical section leaves of a queue that is being drained.
  abbrev Progress : List (Item D) → CodelPool G D × Decision D → Type 0
  Progress buf (q, waits) = ⊥
  Progress buf (q, exits) = (buf ≡ []) × (q.buf ≡ [])
  Progress buf (q, drops it) =
      (q.closed ≡ true)
      × (length buf ≡ suc (length q.buf))
      × ((a : ℕ) → total (is_task a) buf ≡ is_task a it + total (is_task a) q.buf)
  Progress buf (q, serves it) =
      (q.closed ≡ true)
      × (length buf ≡ suc (length q.buf))
      × ((a : ℕ) → total (is_task a) buf ≡ is_task a it + total (is_task a) q.buf)

  -- The worker has returned, and handled each item of the queue once.
  abbrev pub Drained : List (Item D) → Option (List ℕ × CodelPool G D) → Type 0
  Drained buf none = ⊥
  Drained buf (some (ids, q)) = (q.buf ≡ []) × ((a : ℕ) → count a ids ≡ total (is_task a) buf)

  handled-Drained :
      (buf rest : List (Item D)) (it : Item D) (r : Option (List ℕ × CodelPool G D))
      → ((a : ℕ) → total (is_task a) buf ≡ is_task a it + total (is_task a) rest)
      → Drained rest r
      → Drained buf (handled it r)
  unfolding handled
  handled-Drained buf rest it none e d = d
  handled-Drained buf rest it (some (ids, q)) e d = (d.0, λ a. omega (arith, e a, d.1 a))

  module _ (fl : Float64) where
    serve-Progress :
        (p : CodelPool G D) (it : Item D) (rest : List (Item D))
        → p.closed ≡ true
        → Progress (it ∷ rest) (serve p it rest)
    unfolding serve
    serve-Progress p it rest h = elim (Bool-cases (p.adaptive_lifo && p.control.dropping)) [
      | inl lifo ↦
          rw (lifo, serve)
            (
              h,
              omega (arith, length-split_last it rest),
              λ a. omega (arith, split_last-total (is_task a) it rest),
            )
      | inr fifo ↦ rw (fifo, serve) (h, refl, λ a. refl)
    ]

    worker_lock-Progress :
        (now : Time) (p : CodelPool G D) (buf : List (Item D))
        → p.buf ≡ buf
        → p.closed ≡ true
        → Progress buf (worker_from fl now p buf)
    unfolding worker_from
    worker_lock-Progress now p [] e h =
        subst (λ b. Progress [] (p, if b then exits else waits)) (sym h) (refl, e)
    worker_lock-Progress now p (it ∷ rest) e h =
        elim (Bool-cases (should_drop fl p.control it.enq now).0) [
          | inl drop ↦ rw drop (h, refl, λ a. refl)
          | inr keep ↦ rw keep (serve-Progress _ it rest h)
        ]

    module _ (ops : Gate G D) (outcome : ℕ → Outcome) where
      -- One round of `worker`, and then the others.
      round :
          (CodelPool G D → Option (List ℕ × CodelPool G D))
          → CodelPool G D × Decision D
          → Option (List ℕ × CodelPool G D)
      unfolding handled
      round again (q, waits) = none
      round again (q, exits) = some ([], q)
      round again (q, drops it) = handled it (again (drop_callback ops it q))
      round again (q, serves it) =
          handled it (again (run_end (task_end ops it (outcome it.task) (run_begin q))))

      -- The loop of `worker` with no other thread in between: the tasks that it handled, in order, and
      -- the pool that it leaves. `clock` gives the time at each round, counted down; `none` means that
      -- the worker waits, or that the fuel ran out.
      pub worker : ℕ → (ℕ → Time) → CodelPool G D → Option (List ℕ × CodelPool G D)
      unfolding round
      worker zero clock p = none
      worker (suc fuel) clock p = round (worker fuel clock) (worker_lock fl (clock fuel) p)

      round-Drained :
          (fuel : ℕ) (again : CodelPool G D → Option (List ℕ × CodelPool G D)) (buf : List (Item D))
          (x : CodelPool G D × Decision D)
          → ((q : CodelPool G D) → q.closed ≡ true → length q.buf < fuel → Drained q.buf (again q))
          → Progress buf x
          → length buf < suc fuel
          → Drained buf (round again x)
      unfolding round drop_callback run_end task_end run_begin
      round-Drained fuel again buf (q, waits) ih p h = absurd p
      round-Drained fuel again buf (q, exits) ih p h = ground arith
      round-Drained fuel again buf (q, drops it) ih p h =
          handled-Drained buf q.buf it _ p.2 (ih (drop_callback ops it q) p.0 (omega (arith, p.1)))
      round-Drained fuel again buf (q, serves it) ih p h =
          handled-Drained buf q.buf it _ p.2 (
            ih (run_end (task_end ops it (outcome it.task) (run_begin q))) p.0 (omega (arith, p.1)))

      -- `Stop` ends: once the pool is closed, a worker returns after at most one round more than there
      -- are queued items, leaves the queue empty, and has run or dropped each queued item exactly once.
      worker-Drained :
          (fuel : ℕ) (clock : ℕ → Time) (p : CodelPool G D)
          → p.closed ≡ true
          → length p.buf < fuel
          → Drained p.buf (worker fuel clock p)
      unfolding worker worker_lock
      worker-Drained zero clock p c h = absurd (omega arith)
      worker-Drained (suc fuel) clock p c h =
          round-Drained fuel (worker fuel clock) p.buf (worker_lock fl (clock fuel) p)
            (λ q. worker-Drained fuel clock q) (worker_lock-Progress (clock fuel) p p.buf refl c) h
