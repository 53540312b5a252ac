-- ===== src/Limits/ExpAvg.antt =====
-- concurrencylimits/limit.go: the moving average, and the table of logarithms.
use load_shedding.Prelude.{if◌then◌else◌}
use load_shedding.Prelude.Int.{ℤ, pos, ltb_ℤ}
use load_shedding.Prelude.Word.{incr}
use load_shedding.Prelude.Float.{Float64}

module _ (fl : Float64) where
  open fl use {F, of_int, to_int, ratio, add, minus, mul, div, log10}

  pub record ExpAvg : Type 0 where
    pub window : ℤ
    pub warmup : ℤ
    pub count : ℤ
    pub sum : F
    pub value : F

  abbrev pub new_exp_avg : ℤ → ℤ → ExpAvg
  new_exp_avg window warmup = record {
    window = window;
    warmup = warmup;
    count = pos 0;
    sum = ratio (pos 0) (pos 1);
    value = ratio (pos 0) (pos 1);
  }

  -- `2.0 / (float64(e.window) + 1.0)`.
  abbrev pub avg_factor : ℤ → F
  avg_factor window = div (ratio (pos 2) (pos 1)) (add (of_int window) (ratio (pos 1) (pos 1)))

  -- The result is the new `value`.
  unfoldable pub avg_add : F → ExpAvg → ExpAvg
  avg_add sample e =
      if ltb_ℤ e.count e.warmup
      then record e {
        count = incr e.count;
        sum = add e.sum sample;
        value = div (add e.sum sample) (of_int (incr e.count));
      }
      else record e {
        value =
            add (mul e.value (minus (ratio (pos 1) (pos 1)) (avg_factor e.window)))
              (mul sample (avg_factor e.window));
      }

  abbrev pub avg_update : (F → F) → ExpAvg → ExpAvg
  avg_update fn e = record e { value = fn e.value }

  -- `max(1, n)` on an int.
  abbrev at_least_one : ℤ → ℤ
  at_least_one n = if ltb_ℤ n (pos 1) then pos 1 else n

  -- The table of the first 1000 values, and what the code computes beyond it.
  unfoldable pub log10_int : ℤ → ℤ
  log10_int t =
      if ltb_ℤ t (pos 1)
      then pos 1
      else if ltb_ℤ t (pos 1000)
      then at_least_one (to_int (log10 (of_int t)))
      else to_int (log10 (of_int t))
