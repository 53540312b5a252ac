-- ===== src/Queue/Codel/Order.antt =====
-- queue/codel.go: which item a worker takes, and what `Submit` answers.
use load_shedding.Prelude.{
  ℕ, ◌≡◌, refl, ap, true, false, Option, none, some, List, [], ◌∷◌, ◌++◌, arith, length, ◌⊎◌, ◌&&◌,
}
use load_shedding.Prelude.Int.{pos, ltb_ℤ}
use load_shedding.Prelude.Word.{incr}
use load_shedding.Prelude.Time.{Time}
use load_shedding.Prelude.Float.{Float64}
use load_shedding.Queue.Gate.{Gate}
use load_shedding.Queue.Task.{SubmitError, stopped, queue_full, overloaded}
use load_shedding.Queue.Codel.{
  CodelPool, Item, Decision, waits, exits, drops, serves, worker_lock, split_last,
}

split_last-append {ℓ} :
    {A : Type ℓ} (x : A) (xs : List A) → (split_last x xs).0 ++ (split_last x xs).1 ∷ [] ≡ x ∷ xs
unfolding split_last
split_last-append x [] = refl
split_last-append x (y ∷ ys) = ap (x ∷◌) (split_last-append y ys)

module _ {G D : Type 0} where
  -- What a decision says of the queue before and after.
  abbrev pub Taken : List (Item D) → CodelPool G D → Decision D → Type 0
  Taken buf q waits = (buf ≡ []) × (q.buf ≡ []) × (q.closed ≡ false)
  Taken buf q exits = (buf ≡ []) × (q.buf ≡ []) × (q.closed ≡ true)
  Taken buf q (drops it) = buf ≡ it ∷ q.buf
  Taken buf q (serves it) =
      ((q.adaptive_lifo && q.control.dropping ≡ false) × (buf ≡ it ∷ q.buf))
      ⊎ ((q.adaptive_lifo && q.control.dropping ≡ true) × (buf ≡ q.buf ++ it ∷ []))

  module _ (fl : Float64) where
    worker_from_order :
        (now : Time) (p : CodelPool G D) (buf : List (Item D))
        → p.buf ≡ buf
        → Taken buf (worker_lock fl now p).0 (worker_lock fl now p).1
    unfolding worker_lock
    worker_from_order now p [] e = ground arith
    worker_from_order now p (it ∷ rest) e = ground (arith, split_last-append {0} it rest)

    -- A worker takes the oldest item, whether it drops or serves it, except that in the dropping state with
    -- adaptive LIFO it serves the newest; the other items stay in their order. It waits only on an empty
    -- queue of an open pool, and returns only on an empty queue of a closed one.
    pub worker_lock_order :
        (now : Time) (p : CodelPool G D)
        → Taken p.buf (worker_lock fl now p).0 (worker_lock fl now p).1
    worker_lock_order now p = worker_from_order now p p.buf refl

  abbrev Unchanged : CodelPool G D → CodelPool G D → Type 0
  Unchanged p q = record {
    buf : q.buf ≡ p.buf;
    closed : q.closed ≡ p.closed;
    capacity : q.capacity ≡ p.capacity;
    accepted : q.accepted ≡ p.accepted;
  }

  abbrev pub HasRoom : CodelPool G D → Type 0
  HasRoom p = (p.closed ≡ false) × (ltb_ℤ (pos (length p.buf)) p.capacity ≡ true)

  -- What the answer of a submission says of the queue.
  abbrev pub Answered :
      Time → ℕ → CodelPool G D → Option (Option D) → CodelPool G D × Option SubmitError → Type 0
  Answered now task p (some token) (q, none) =
      HasRoom p
      × (q.buf ≡ p.buf ++ record { task = task; token = token; enq = now } ∷ [])
      × (q.accepted ≡ incr p.accepted)
  Answered now task p none (q, none) = ⊥
  Answered now task p none (q, some error) =
      (error ≡ overloaded) × (q.buf ≡ p.buf) × (q.accepted ≡ p.accepted)
  Answered now task p (some token) (q, some error) =
      ¬ HasRoom p
      × ((error ≡ stopped) × (p.closed ≡ true) ⊎ (error ≡ queue_full) × (p.closed ≡ false))
      × (q.buf ≡ p.buf)
      × (q.accepted ≡ p.accepted)
