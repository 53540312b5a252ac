-- ===== src/Queue/Promise/Kept.antt =====
-- queue/: what follows for any pool whose actions are moves of the abstract task queue.
use load_shedding.Prelude.{ℕ, Bool, ◌+◌, ◌≡◌, inl, inr, true, [], ◌∷◌, length, arith, length-append}
use load_shedding.Prelude.Bag.{count, total-append, one_if_eq}
use load_shedding.Prelude.Int.{ℤ, pos, ◌≤ℤ◌}
use load_shedding.Queue.Promise.{
  TaskQueue, Same, Move, rests, accepts, takes, finishes, closes, Moves, first, further,
  fresh_queue,
}

-- How often a task is in the queue, worked on or finished.
abbrev pub whole : ℕ → TaskQueue → ℕ
whole a v = count a v.line + v.working a + v.finished a

-- The line never outgrows the capacity.
abbrev IsBounded : TaskQueue → Type 0
IsBounded v = pos (length v.line) ≤ℤ v.capacity

Same-IsBounded : {v w : TaskQueue} → Same v w → IsBounded v → IsBounded w
Same-IsBounded e h = ground (arith, e.line_same, e.capacity_same)

Move-IsBounded : {v w : TaskQueue} → Move v w → IsBounded v → IsBounded w
Move-IsBounded (rests e) h = Same-IsBounded e h
Move-IsBounded {v} (accepts task c room e) h =
    Same-IsBounded e (ground (arith, length-append v.line (task ∷ [])))
Move-IsBounded (takes task rest (inl k) e) h = Same-IsBounded e (ground (arith, k))
Move-IsBounded (takes task rest (inr k) e) h =
    Same-IsBounded e (ground (arith, k.1, length-append rest (task ∷ [])))
Move-IsBounded (finishes task others k e) h = Same-IsBounded e h
Move-IsBounded (closes e) h = Same-IsBounded e h

Moves-IsBounded :
    (capacity : ℤ) (lifo : Bool) {w : TaskQueue}
    → pos 0 ≤ℤ capacity
    → Moves (fresh_queue capacity lifo) w
    → IsBounded w
Moves-IsBounded capacity lifo h (first e) = Same-IsBounded e h
Moves-IsBounded capacity lifo h (further m k) = Move-IsBounded k (Moves-IsBounded capacity lifo h m)

Same-whole : (a : ℕ) {v w : TaskQueue} → Same v w → whole a w ≡ whole a v
Same-whole a e = ground (arith, e.line_same, e.working_same a, e.finished_same a)

-- A closed queue stays closed, and neither gains nor loses a task.
pub Move-whole :
    (a : ℕ) {v w : TaskQueue}
    → Move v w
    → v.closed ≡ true
    → (w.closed ≡ true) × (whole a w ≡ whole a v)
Move-whole a (rests e) h = (ground (arith, e.closed_same), Same-whole a e)
Move-whole a (accepts task c room e) h = absurd (ground arith)
Move-whole a {v} (takes task rest (inl k) e) h =
    (ground (arith, e.closed_same), ground (arith, k, Same-whole a e))
Move-whole a {v} (takes task rest (inr k) e) h = (
  ground (arith, e.closed_same),
  ground (arith, k.1, Same-whole a e, total-append (one_if_eq a) rest (task ∷ [])),
)
Move-whole a (finishes task others k e) h =
    (ground (arith, e.closed_same), ground (arith, k a, Same-whole a e))
Move-whole a (closes e) h = (ground (arith, e.closed_same), Same-whole a e)
