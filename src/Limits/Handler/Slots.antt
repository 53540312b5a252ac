-- ===== src/Limits/Handler/Slots.antt =====
-- concurrencylimits/handler.go: the middleware gives back each slot.
use load_shedding.Prelude.{◌≡◌, refl, [], Option, none, some, arith}
use load_shedding.Prelude.Word.{IsInt64}
use load_shedding.Prelude.Time.{Time}
use load_shedding.Http.{Script, new_code_writer, apply}
use load_shedding.Limits.Limit.{Limit, on_dropped}
use load_shedding.Limits.Limiter.{SimpleLimiter, Listener, acquire, simple_limiter}
use load_shedding.Limits.Limiter.Slots.{inflight_restored}
use load_shedding.Limits.Handler.{handle, serve, report_of}

module _ {L : Type 0} (algorithm : Limit L) where
  serve_restores :
      (start now : Time) (script : Script) (l : SimpleLimiter L)
      (x : SimpleLimiter L × Option Listener)
      → acquire algorithm start l ≡ x
      → IsInt64 l.inflight
      → (serve (simple_limiter algorithm) now script x).0.inflight ≡ l.inflight
  unfolding serve
  serve_restores start now script l (m, none) e h =
      ground (arith, (inflight_restored algorithm start now on_dropped l h).0)
  serve_restores start now script l (m, some s) e h =
      let r = report_of script.ending (apply script.calls (new_code_writer [])).code in
      ground (arith, (inflight_restored algorithm start now r l h).1 s)

  -- The middleware of a SimpleLimiter leaves the count of requests in flight as it found it, whether the
  -- request was shed, answered with any status, or its handler panicked.
  handle_restores :
      (start now : Time) (script : Script) (l : SimpleLimiter L)
      → IsInt64 l.inflight
      → (handle (simple_limiter algorithm) start now script l).0.inflight ≡ l.inflight
  unfolding handle
  handle_restores start now script l h =
      serve_restores start now script l (acquire algorithm start l) refl h
