-- ===== src/Queue/Promise.antt =====
-- queue/: what both pools promise of the tasks that they accept, with threads, gates, counters and the
-- order of the workers left out: a bounded line that can be closed, whose tasks are taken at one of its
-- ends, worked on and finished.
pub mod Kept
use load_shedding.Prelude.{ℕ, ◌+◌, ◌≡◌, refl, ◌⊎◌, Bool, true, false, List, [], ◌∷◌, ◌++◌, length}
use load_shedding.Prelude.Bag.{one_if_eq}
use load_shedding.Prelude.Int.{ℤ, pos, ltb_ℤ}

abbrev pub plus_one : ℕ → (ℕ → ℕ) → ℕ → ℕ
plus_one task bag a = one_if_eq a task + bag a

pub record TaskQueue : Type 0 where
  pub line : List ℕ
  pub closed : Bool
  pub capacity : ℤ
  -- Whether the newest task may be taken too, not just the oldest.
  pub lifo : Bool
  -- How often each task has been accepted, is being worked on, and has been finished.
  pub accepted : ℕ → ℕ
  pub working : ℕ → ℕ
  pub finished : ℕ → ℕ

abbrev pub fresh_queue : ℤ → Bool → TaskQueue
fresh_queue capacity lifo = record {
  line = [];
  closed = false;
  capacity = capacity;
  lifo = lifo;
  accepted = λ a. 0;
  working = λ a. 0;
  finished = λ a. 0;
}

-- Two views that agree in every respect.
pub record Same (v w : TaskQueue) : Type 0 where
  pub line_same : w.line ≡ v.line
  pub closed_same : w.closed ≡ v.closed
  pub capacity_same : w.capacity ≡ v.capacity
  pub lifo_same : w.lifo ≡ v.lifo
  pub accepted_same : (a : ℕ) → w.accepted a ≡ v.accepted a
  pub working_same : (a : ℕ) → w.working a ≡ v.working a
  pub finished_same : (a : ℕ) → w.finished a ≡ v.finished a

pub Same-refl : (v : TaskQueue) → Same v v
Same-refl v = record {
  line_same = refl;
  closed_same = refl;
  capacity_same = refl;
  lifo_same = refl;
  accepted_same = λ a. refl;
  working_same = λ a. refl;
  finished_same = λ a. refl;
}

-- The moves that a pool may make: none, or one of these four.
pub data Move (v w : TaskQueue) : Type 0 where
  rests : Same v w → Move v w
  accepts :
      (task : ℕ)
      → v.closed ≡ false
      → ltb_ℤ (pos (length v.line)) v.capacity ≡ true
      → Same (record v { line = v.line ++ task ∷ []; accepted = plus_one task v.accepted }) w
      → Move v w
  takes :
      (task : ℕ) (rest : List ℕ)
      → (v.line ≡ task ∷ rest) ⊎ (v.lifo ≡ true) × (v.line ≡ rest ++ task ∷ [])
      → Same (record v { line = rest; working = plus_one task v.working }) w
      → Move v w
  finishes :
      (task : ℕ) (others : ℕ → ℕ)
      → ((a : ℕ) → v.working a ≡ plus_one task others a)
      → Same (record v { working = others; finished = plus_one task v.finished }) w
      → Move v w
  closes : Same (record v { closed = true }) w → Move v w

-- What moves make of a view.
pub data Moves (v : TaskQueue) : TaskQueue → Type 0 where
  first : {w : TaskQueue} → Same v w → Moves v w
  further : {w x : TaskQueue} → Moves v w → Move w x → Moves v x
