-- ===== src/Limits/Tests/Stack.antt =====
-- A SimpleLimiter over windows over a Gradient2Limit, over thousandths in place of float64: one request
-- ends and feeds its window, and the next comes in.
use load_shedding.Prelude.{ℕ, ◌+◌, ◌*◌, ◌≡◌, refl, false, [], ◌∷◌, arith, length}
use load_shedding.Prelude.Bag.{Pick, Swap}
use load_shedding.Prelude.Int.{pos, ◌≤ℤ◌, ◌+ℤ◌, ◌*ℤ◌}
use load_shedding.Prelude.Word.{wrap}
use load_shedding.Prelude.Time.{Time}
use load_shedding.Prelude.Float.Fixed.{fixed, fixed-IsOrdered, fixed-IsClamping, fixed-IsCautious}
use load_shedding.Limits.Limit.{Limit, on_success}
use load_shedding.Limits.Limiter.{
  Listener, acquire_add, acquire_test, finish_swap, finish_sample, release, new_simple_limiter,
}
use load_shedding.Limits.Limiter.System.{
  testing, live, releasing, System, start, Reach, init, next, add_step, admit_step, swap_step,
  release_step, sample_step,
}
use load_shedding.Limits.Limiter.Ranks.{admitted}
use load_shedding.Limits.Limiter.Adaptive.{adaptive-admitted}
use load_shedding.Limits.Windowed.{WindowedLimit, new_windowed_limit, windowed}
use load_shedding.Limits.Gradient2.{Gradient2Limit, new_gradient2_limit, gradient2, gradient2_limit}

abbrev Windows : Type 0
Windows = WindowedLimit (Gradient2Limit fixed)

abbrev windows : Windows
windows = new_windowed_limit (new_gradient2_limit fixed []) []

abbrev clock : ℕ → Time
clock n = pos (2_000_000_000 * (n + 1))

abbrev algorithm : Limit (ℕ × Windows)
algorithm = windowed (gradient2 fixed) clock

abbrev Run : Type 0
Run = System (ℕ × Windows)

abbrev s0 : Run
s0 = start (0, windows)

abbrev s1 : Run
s1 = record s0 {
  limiter = (acquire_add s0.limiter).0;
  inside = testing (acquire_add s0.limiter).1 ∷ [];
}

abbrev first : Listener
first = record { start = pos 5; inflight = pos 1; finished = false }

abbrev s2 : Run
s2 = record s1 { inside = live first ∷ [] }

abbrev s3 : Run
s3 = record s2 { inside = releasing (finish_swap first).0 on_success ∷ [] }

abbrev s4 : Run
s4 = record {
  limiter = release s3.limiter;
  inside = [];
  sampling = ((finish_swap first).0, on_success) ∷ [];
}

abbrev s5 : Run
s5 = record s4 {
  limiter = finish_sample algorithm (pos 900_000) (finish_swap first).0 on_success s4.limiter;
  sampling = [];
}

abbrev s6 : Run
s6 = record s5 {
  limiter = (acquire_add s5.limiter).0;
  inside = testing (acquire_add s5.limiter).1 ∷ [];
}

reach : Reach algorithm (0, windows) s6
unfolding new_simple_limiter new_windowed_limit acquire_add acquire_test finish_swap gradient2_limit
    wrap ◌+ℤ◌ ◌*ℤ◌
reach =
    next
      (next
        (next
          (next
            (next (next init (add_step (omega arith)))
              (admit_step (pos 5) (pos 1) first refl Swap.here))
            (swap_step first on_success refl Swap.here))
          (release_step (finish_swap first).0 on_success Pick.here))
        (sample_step (pos 900_000) (finish_swap first).0 on_success Pick.here))
      (add_step (omega arith))

adaptive-admitted_example :
    (pos (admitted s6.inside) ≤ℤ pos 200) × (s6.limiter.inflight ≡ pos (length s6.inside))
unfolding new_windowed_limit ◌*ℤ◌
adaptive-admitted_example =
    adaptive-admitted fixed fixed-IsOrdered fixed-IsClamping fixed-IsCautious clock windows
      (omega arith, omega arith) (omega arith, omega arith) (omega arith) (refl, refl) reach
