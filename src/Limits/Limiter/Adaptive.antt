-- ===== src/Limits/Limiter/Adaptive.antt =====
-- concurrencylimits/: a SimpleLimiter over windows over a Gradient2Limit, all of them together.
use load_shedding.Prelude.{ℕ, ◌≡◌, refl, inr, length}
use load_shedding.Prelude.Int.{pos, ◌≤ℤ◌}
use load_shedding.Prelude.Time.{Time}
use load_shedding.Prelude.Float.{Float64}
use load_shedding.Prelude.Float.Laws.{IsOrdered, IsClamping, IsCautious, IsExact}
use load_shedding.Limits.Held.{IsBetween}
use load_shedding.Limits.Gradient2.{Gradient2Limit, gradient2}
use load_shedding.Limits.Gradient2.Capped.{gradient2_capped}
use load_shedding.Limits.Windowed.{WindowedLimit, windowed}
use load_shedding.Limits.Windowed.Capped.{windowed_capped}
use load_shedding.Limits.Limiter.System.{System, Reach}
use load_shedding.Limits.Limiter.Ranks.{admitted}
use load_shedding.Limits.Limiter.Slots.{capped-admitted}

-- A SimpleLimiter over a WindowedLimit over a Gradient2Limit, whatever the windows and the clock are:
-- in every state that it reaches, at most as many requests as the maximum of the Gradient2Limit have
-- been admitted and have not given back their slot, and the counter is exact. The bounds of the limit
-- are integers from 0 to 2^53 in order, the estimate starts between them, and a NaN converts to an
-- integer that is not positive.
pub adaptive-admitted :
    (fl : Float64)
    → IsOrdered fl
    → IsClamping fl
    → IsCautious fl
    → (clock : ℕ → Time) (w : WindowedLimit (Gradient2Limit fl)) → IsExact w.delegate.min_limit
    → IsExact w.delegate.max_limit
    → w.delegate.min_limit ≤ℤ w.delegate.max_limit
    → IsBetween fl w.delegate.min_limit w.delegate.max_limit w.delegate.estimated_limit
    → {s : System (ℕ × WindowedLimit (Gradient2Limit fl))}
    → Reach (windowed (gradient2 fl) clock) (0, w) s
    → (pos (admitted s.inside) ≤ℤ w.delegate.max_limit)
      × (s.limiter.inflight ≡ pos (length s.inside))
adaptive-admitted fl ordered laws nan clock w low high between start r =
    let cap =
      gradient2_capped fl ordered laws nan w.delegate.min_limit w.delegate.max_limit low high
        between in
    capped-admitted (windowed (gradient2 fl) clock) w.delegate.max_limit
      (windowed_capped (gradient2 fl) w.delegate.max_limit cap clock) high.0
      (record { low_kept = refl; high_kept = refl; kept = inr start }) r
