-- ===== src/Limits/Limit.antt =====
-- concurrencylimits/limit.go, fixed.go, limiter.go: the interfaces of a limit algorithm and of a
-- limiter, and the constant algorithm.
pub mod Capped
use load_shedding.Prelude.{Bool, Option, List, [], ◌∷◌}
use load_shedding.Prelude.Int.{ℤ}
use load_shedding.Prelude.Time.{Time, Duration}

-- The interface `Limit`, on a state `L`.
pub record Limit (L : Type 0) : Type 0 where
  pub on_sample : Duration → ℤ → Bool → L → L
  pub limit : L → ℤ

abbrev pub fixed_limit : Limit ℤ
fixed_limit = record { on_sample = λ _ _ _ l. l; limit = λ l. l }

-- `for _, opt := range opts { opt(l) }`.
abbrev pub with_options : {A : Type 0} → List (A → A) → A → A
with_options [] l = l
with_options (opt ∷ rest) l = with_options rest (opt l)

-- The three ways to end a request.
pub data Report : Type 0 where
  on_success on_ignore on_dropped : Report

-- The interface `Limiter`, on a state `S` with listeners of type `T`; the time is what the call reads
-- from the clock. A listener is mutable: a report gives the new one back.
pub record Limiter (S T : Type 0) : Type 0 where
  pub acquire : Time → S → S × Option T
  pub report : Time → T → Report → S → S × T
