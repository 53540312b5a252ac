-- ===== src/Limits/Lifo/Balance.antt =====
-- concurrencylimits/lifo.go: each action keeps account of the listeners that the delegate has handed out.
use load_shedding.Prelude.{
  ℕ, ◌+◌, ◌≡◌, refl, true, false, Option, none, some, List, [], ◌∷◌, arith, length, inl, inr,
  Bool-cases,
}
use load_shedding.Prelude.Bag.{Pick, Pick-total, count}
use load_shedding.Prelude.Int.{pos, ltb_ℤ}
use load_shedding.Prelude.Time.{Time}
use load_shedding.Limits.Limit.{Limiter}
use load_shedding.Limits.Lifo.{
  Waiter, new_waiter, join_backlog, wake, time_out, fast_path, unblock, unblock_from, grant,
}
use load_shedding.Limits.Lifo.System.{System, joined}
use load_shedding.Limits.Lifo.Holders.{handed, Issuing, count_issue, issuing}
use load_shedding.Limits.Lifo.Granted.{
  one_if_some, granted_in, length-handed, granted_in_absent, granted_in_same, granted_in_given,
}

module _ {S T : Type 0} where
  issued-count_issue :
      (n : ℕ) (x : S × Option T) → (count_issue n x).0.issued ≡ n + one_if_some (count_issue n x).1
  issued-count_issue n (s, none) = omega arith
  issued-count_issue n (s, some l) = omega arith

  -- Of the listeners handed out, this many are not with callers that wait.
  abbrev pub Balanced : System (Issuing S) T → ℕ → Type 0
  Balanced s out = s.lifo.delegate.issued ≡ out + granted_in s.lifo.heap s.waiting

  module _ (delegate : Limiter S T) where
    pub fast-Balanced :
        (now : Time) (s : System (Issuing S) T) (holders : List T) (ended : ℕ)
        → Balanced s (length holders + ended)
        → Balanced
            (record s { lifo = (fast_path (issuing delegate) now s.lifo).0 })
            (length (handed (fast_path (issuing delegate) now s.lifo).1 holders) + ended)
    unfolding fast_path
    fast-Balanced now s holders ended v =
        let x = delegate.acquire now s.lifo.delegate.inner in
        let permit = (count_issue s.lifo.delegate.issued x).1 in
        omega (arith, issued-count_issue s.lifo.delegate.issued x, v, length-handed permit holders)

    grant-Balanced :
        (w : ℕ) (rest : List ℕ) (s : System (Issuing S) T) (out : ℕ) (d : Issuing S)
        (permit : Option T)
        → count w s.waiting ≡ 1
        → (s.lifo.heap w).listener ≡ none
        → d.issued ≡ s.lifo.delegate.issued + one_if_some permit
        → Balanced s out
        → Balanced (record s { lifo = grant w rest s.lifo (d, permit) }) out
    unfolding grant
    grant-Balanced w rest s out d none waits bare more v = omega (arith, more, v)
    grant-Balanced w rest s out d (some l) waits bare more v =
        let filled : Waiter T = record { ready = true; listener = some l; removed = true } in
        ground (arith, more, v, bare, granted_in_given s.lifo.heap w filled s.waiting waits)

    -- The permit goes to a caller that waits without one.
    unblock_from-Balanced :
        (now : Time) (s : System (Issuing S) T) (out : ℕ) (backlog : List ℕ)
        → ((w : ℕ) (rest : List ℕ)
            → backlog ≡ w ∷ rest
            → (count w s.waiting ≡ 1) × ((s.lifo.heap w).listener ≡ none))
        → Balanced s out
        → Balanced (record s { lifo = unblock_from (issuing delegate) now s.lifo backlog }) out
    unfolding unblock_from
    unblock_from-Balanced now s out [] h v = v
    unblock_from-Balanced now s out (w ∷ rest) h v =
        let (waits, bare) = h w rest refl in
        let x = delegate.acquire now s.lifo.delegate.inner in
        let (d, permit) = count_issue s.lifo.delegate.issued x in
        grant-Balanced w rest s out d permit waits bare
          (issued-count_issue s.lifo.delegate.issued x) v

    pub unblock-Balanced :
        (now : Time) (s : System (Issuing S) T) (out : ℕ)
        → ((w : ℕ) (rest : List ℕ)
            → s.lifo.backlog ≡ w ∷ rest
            → (count w s.waiting ≡ 1) × ((s.lifo.heap w).listener ≡ none))
        → Balanced s out
        → Balanced (record s { lifo = unblock (issuing delegate) now s.lifo }) out
    unfolding unblock
    unblock-Balanced now s out h v = unblock_from-Balanced now s out s.lifo.backlog h v

  pub join-Balanced :
      (s : System (Issuing S) T) (out : ℕ)
      → count s.lifo.next_waiter s.waiting ≡ 0
      → Balanced s out
      → Balanced (joined (join_backlog s.lifo) s) out
  unfolding join_backlog joined
  join-Balanced s out h v =
      elim (Bool-cases (ltb_ℤ (pos (length s.lifo.backlog)) s.lifo.backlog_size)) [
        | inl e ↦ rw e (
            ground (
              arith,
              v,
              granted_in_absent s.lifo.heap s.lifo.next_waiter new_waiter s.waiting h,
              h,
            ))
        | inr e ↦ rw e v
      ]

  pub wake-Balanced :
      (w : ℕ) (s : System (Issuing S) T) (rest : List ℕ) (holders : List T) (ended : ℕ)
      → Pick w s.waiting rest
      → Balanced s (length holders + ended)
      → Balanced
          (record s { waiting = rest; returned = (w, wake w s.lifo) ∷ s.returned })
          (length (handed (wake w s.lifo) holders) + ended)
  unfolding wake
  wake-Balanced w s rest holders ended p v = omega (
    arith,
    v,
    length-handed (s.lifo.heap w).listener holders,
    Pick-total (λ x. one_if_some (s.lifo.heap x).listener) p,
  )

  -- A caller whose waiter is in the backlog has no permit.
  pub time_out-Balanced :
      (w : ℕ) (s : System (Issuing S) T) (rest : List ℕ) (holders : List T) (ended : ℕ)
      → ((s.lifo.heap w).removed ≡ false → (s.lifo.heap w).listener ≡ none)
      → Pick w s.waiting rest
      → Balanced s (length holders + ended)
      → Balanced
          (record s {
            lifo = (time_out w s.lifo).0;
            waiting = rest;
            returned = (w, (time_out w s.lifo).1) ∷ s.returned;
          })
          (length (handed (time_out w s.lifo).1 holders) + ended)
  unfolding time_out wake
  time_out-Balanced w s rest holders ended h p v =
      let out = record (s.lifo.heap w) { removed = true } in
      elim (Bool-cases (s.lifo.heap w).removed) [
        | inl e ↦ rw e (wake-Balanced w s rest holders ended p v)
        | inr e ↦ rw e (
            ground (
              arith,
              v,
              h e,
              granted_in_same s.lifo.heap w out rest refl,
              Pick-total (λ x. one_if_some (s.lifo.heap x).listener) p,
            ))
      ]
