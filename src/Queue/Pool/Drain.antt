-- ===== src/Queue/Pool/Drain.antt =====
-- queue/pool.go: a worker after `Stop` runs what is queued and returns.
use load_shedding.Prelude.{
  ℕ, zero, suc, ◌<◌, ◌≡◌, refl, true, Option, none, some, List, [], ◌∷◌, arith, length, map,
  if◌then◌else◌,
}
use load_shedding.Queue.Gate.{Gate}
use load_shedding.Queue.Task.{Outcome}
use load_shedding.Queue.Pool.{Pool, Job, release, run_begin, run_end, task_end}

module _ {G D : Type 0} (ops : Gate G D) (outcome : ℕ → Outcome) where
  -- One round: the task runs, and the slot is released.
  abbrev run_one : Job D → List (Job D) → Pool G D → Pool G D
  run_one job rest p =
      release
        (run_end (task_end ops job (outcome job.task) (run_begin (record p { tasks = rest }))))

  ran : Job D → Option (List ℕ × Pool G D) → Option (List ℕ × Pool G D)
  ran job none = none
  ran job (some (ids, q)) = some (job.task ∷ ids, q)

  round :
      (Pool G D → Option (List ℕ × Pool G D)) → Pool G D → List (Job D) → Option (List ℕ × Pool G D)
  unfolding ran
  round again p [] = if p.closed then some ([], p) else none
  round again p (job ∷ rest) = ran job (again (run_one job rest p))

  -- The loop of `worker` with no other thread in between: the tasks that it ran, in order, and the pool
  -- that it leaves; `none` where it waits for a task of an open pool, or where the fuel ran out.
  pub worker : ℕ → Pool G D → Option (List ℕ × Pool G D)
  unfolding round
  worker zero p = none
  worker (suc fuel) p = round (worker fuel) p p.tasks

  -- The worker returned with the channel empty, after it ran these jobs in this order.
  abbrev pub RanAll : List (Job D) → Option (List ℕ × Pool G D) → Type 0
  RanAll jobs r = (q : Pool G D) × (r ≡ some (map (λ job. job.task) jobs, q)) × (q.tasks ≡ [])

  ran-RanAll :
      (job : Job D) (rest : List (Job D)) (r : Option (List ℕ × Pool G D))
      → RanAll rest r
      → RanAll (job ∷ rest) (ran job r)
  unfolding ran
  ran-RanAll job rest r (q, e, t) = (q, rw (e, ran), t)

  round-RanAll :
      (fuel : ℕ) (again : Pool G D → Option (List ℕ × Pool G D)) (p : Pool G D)
      (jobs : List (Job D))
      → ((q : Pool G D) → q.closed ≡ true → length q.tasks < fuel → RanAll q.tasks (again q))
      → p.tasks ≡ jobs
      → p.closed ≡ true
      → length jobs < suc fuel
      → RanAll jobs (round again p jobs)
  unfolding round run_begin run_end release task_end
  round-RanAll fuel again p [] ih e c h = (p, ground arith, e)
  round-RanAll fuel again p (job ∷ rest) ih e c h =
      ran-RanAll job rest _ (ih (run_one job rest p) c (omega arith))

  -- `Stop` ends, and is graceful: once the pool is closed, a worker returns after at most one round
  -- more than there are queued tasks, and has run each of them, oldest first.
  worker-RanAll :
      (fuel : ℕ) (p : Pool G D)
      → p.closed ≡ true
      → length p.tasks < fuel
      → RanAll p.tasks (worker fuel p)
  unfolding worker
  worker-RanAll zero p c h = absurd (omega arith)
  worker-RanAll (suc fuel) p c h =
      round-RanAll fuel (worker fuel) p p.tasks (λ q. worker-RanAll fuel q) refl c h
