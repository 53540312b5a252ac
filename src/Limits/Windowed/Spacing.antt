-- ===== src/Limits/Windowed/Spacing.antt =====
-- concurrencylimits/windowed.go: what the delegate is fed, and how often.
use load_shedding.Prelude.{
  suc, ◌+◌, ◌<◌, ◌≤◌, ◌^◌, ◌≡◌, refl, true, Option, none, some, List, [], ◌∷◌, arith, length, sym,
  Bool-cases, inl, inr, if◌then◌else◌,
}
use mathlib.Core.Path.{subst}
use load_shedding.Prelude.Int.{ℤ, pos, ◌≤ℤ◌, ltb_ℤ}
use load_shedding.Prelude.Word.{incr_pos}
use load_shedding.Prelude.Time.{Time, Duration, after, zero_time}
use load_shedding.Limits.Limit.{Limit}
use load_shedding.Limits.Windowed.{SampleWindow, empty_window, add, WindowedLimit, tracked_rtt}
use load_shedding.Limits.Windowed.Timing.{
  Call, after_call, fed, IsTimed, call-timing, call-delegate, call-window_size, starts_window,
  call-window,
}

-- The calls whose samples are fed together, the latest first, and when.
abbrev pub Feed : Type 0
Feed = Time × List Call

-- The window that gathers these calls, the latest first.
abbrev pub gathered : List Call → SampleWindow
gathered [] = empty_window
gathered (c ∷ older) = add c.rtt c.inflight c.dropped (gathered older)

gathered-count : (cs : List Call) → length cs < 2 ^ 63 → (gathered cs).count ≡ pos (length cs)
unfolding add
gathered-count [] h = refl
gathered-count (c ∷ older) h =
    ground (arith, gathered-count older (omega arith), incr_pos (length older))

-- Each of these feeds comes later than `t`.
abbrev pub AllAfter : Time → List Feed → Type 0
AllAfter t [] = Unit {0}
AllAfter t ((u, _) ∷ rest) = (ltb_ℤ t u ≡ true) × AllAfter t rest

-- From each of these feeds to every later one more than `d` passes.
abbrev pub IsSpaced : Duration → List Feed → Type 0
IsSpaced d [] = Unit {0}
IsSpaced d ((t, _) ∷ rest) = AllAfter (after t d) rest × IsSpaced d rest

-- Each of these feeds has at least `size` calls.
abbrev pub AllFull : ℤ → List Feed → Type 0
AllFull size [] = Unit {0}
AllFull size ((_, batch) ∷ rest) = (size ≤ℤ pos (length batch)) × AllFull size rest

-- The clock does not read the zero time.
abbrev pub AllSet : List Call → Type 0
AllSet [] = Unit {0}
AllSet (c ∷ rest) = (ltb_ℤ (pos 0) c.now ≡ true) × AllSet rest

abbrev pub note : Option SampleWindow → Time → List Call → List Feed → List Feed
note none t batch rest = rest
note (some _) t batch rest = (t, batch) ∷ rest

AllAfter-mono : (t u : Time) (xs : List Feed) → t ≤ℤ u → AllAfter u xs → AllAfter t xs
AllAfter-mono t u [] h a = tt
AllAfter-mono t u (x ∷ xs) h a = (ground (arith, a.0), AllAfter-mono t u xs h a.1)

note-IsSpaced :
    (s : Option SampleWindow) (t next later : Time) (batch : List Call) (d : Duration)
    (xs : List Feed)
    → next ≤ℤ later
    → ((w : SampleWindow) → s ≡ some w → (ltb_ℤ next t ≡ true) × (after t d ≤ℤ later))
    → AllAfter later xs × IsSpaced d xs
    → AllAfter next (note s t batch xs) × IsSpaced d (note s t batch xs)
note-IsSpaced none t next later batch d xs h k a = (AllAfter-mono next later xs h a.0, a.1)
note-IsSpaced (some w) t next later batch d xs h k a =
    let (above, gap) = k w refl in
    ((above, AllAfter-mono next later xs h a.0), (AllAfter-mono (after t d) later xs gap a.0, a.1))

module _ {L : Type 0} (algorithm : Limit L) where
  abbrev pub after_calls : List Call → WindowedLimit L → WindowedLimit L
  after_calls [] w = w
  after_calls (c ∷ later) w = after_calls later (after_call algorithm c w)

  -- The calls of the window in progress: those past the threshold since it was started.
  abbrev pub pending_after : Call → WindowedLimit L → List Call → List Call
  pending_after c w pending =
      if ltb_ℤ c.rtt w.min_rtt_threshold
      then pending
      else if starts_window algorithm c w
      then []
      else c ∷ pending

  -- The feeds in the course of these calls, the first call first. Each takes the calls of its window, and
  -- the next window starts empty.
  abbrev pub feeds : List Call → WindowedLimit L → List Call → List Feed
  feeds [] w pending = []
  feeds (c ∷ later) w pending =
      note (fed algorithm c w) c.now (c ∷ pending)
        (feeds later (after_call algorithm c w) (pending_after c w pending))

  -- A delegate that gets the windows of these calls and nothing else.
  abbrev pub fed_with : List Feed → L → L
  fed_with [] l = l
  fed_with ((_, batch) ∷ rest) l =
      let s = gathered batch in
      fed_with rest (algorithm.on_sample (tracked_rtt s) s.max_in_flight s.did_drop l)

  calls-IsSpaced :
      (calls pending : List Call) (low high : Duration) (w : WindowedLimit L)
      → pos 0 ≤ℤ low
      → low ≤ℤ high
      → AllSet calls
      → IsTimed low high w
      → AllAfter w.next_update (feeds calls w pending) × IsSpaced low (feeds calls w pending)
  calls-IsSpaced [] pending low high w l h t v = (tt, tt)
  calls-IsSpaced (c ∷ rest) pending low high w l h t v =
      let (timed, later, spaced) = call-timing algorithm c low high w l h t.0 v in
      let w' = after_call algorithm c w in
      let pending' = pending_after c w pending in
      note-IsSpaced (fed algorithm c w) c.now w.next_update w'.next_update (c ∷ pending) low
        (feeds rest w' pending') later spaced
        (calls-IsSpaced rest pending' low high w' l h t.1 timed)

  note-delegate :
      (s : Option SampleWindow) (t : Time) (batch : List Call) (size : ℤ) (l l' : L)
      (xs : List Feed)
      → length batch < 2 ^ 63
      → (s ≡ none → l' ≡ l)
      → ((w : SampleWindow)
          → s ≡ some w
          → (l' ≡ algorithm.on_sample (tracked_rtt w) w.max_in_flight w.did_drop l)
            × (size ≤ℤ w.count))
      → ((w : SampleWindow) → s ≡ some w → w ≡ gathered batch)
      → AllFull size xs
      → (fed_with xs l' ≡ fed_with (note s t batch xs) l) × AllFull size (note s t batch xs)
  note-delegate none t batch size l l' xs few e k g a = (rw (e refl) refl, a)
  note-delegate (some w) t batch size l l' xs few e k g a =
      let (same, full) =
        subst
          (λ x.
            (l' ≡ algorithm.on_sample (tracked_rtt x) x.max_in_flight x.did_drop l)
            × (size ≤ℤ x.count))
          (g w refl) (k w refl) in
      (rw same refl, (ground (arith, full, gathered-count batch few), a))

  pending-window :
      (c : Call) (w : WindowedLimit L) (pending : List Call)
      → w.window ≡ gathered pending
      → ((after_call algorithm c w).window ≡ gathered (pending_after c w pending))
        × (length (pending_after c w pending) ≤ suc (length pending))
  pending-window c w pending e =
      let shown = (call-window algorithm c w).0 in
      elim (Bool-cases (ltb_ℤ c.rtt w.min_rtt_threshold)) [
        | inl under ↦ (rw (shown, under) e, rw under (omega arith))
        | inr over ↦ elim (Bool-cases (starts_window algorithm c w)) [
          | inl starts ↦ (rw (shown, over, starts) refl, rw (over, starts) (omega arith))
          | inr goes ↦ (rw (shown, over, goes, e) refl, rw (over, goes) (omega arith))
        ]
      ]

  calls-delegate :
      (calls pending : List Call) (w : WindowedLimit L)
      → length calls + length pending < 2 ^ 63
      → w.window ≡ gathered pending
      → ((after_calls calls w).delegate ≡ fed_with (feeds calls w pending) w.delegate)
        × AllFull w.window_size (feeds calls w pending)
  calls-delegate [] pending w few e = (refl, tt)
  calls-delegate (c ∷ rest) pending w few e =
      let w' = after_call algorithm c w in
      let pending' = pending_after c w pending in
      let (kept, given) = call-delegate algorithm c w in
      let (shown, short) = pending-window c w pending e in
      let (same, full) = calls-delegate rest pending' w' (omega arith) shown in
      let (more, fuller) =
        note-delegate (fed algorithm c w) c.now (c ∷ pending) w.window_size w.delegate w'.delegate
          (feeds rest w' pending') (omega arith) kept given
          (λ s h. rw (sym e) ((call-window algorithm c w).1 s h))
          (subst (λ n. AllFull n (feeds rest w' pending')) (call-window_size algorithm c w) full) in
      (rw same more, fuller)

  -- What the delegate of a new WindowedLimit gets in the course of any calls of `OnSample`: for each feed
  -- the window of its calls, in order, and nothing else. A feed has all calls past the threshold since
  -- the last window was started, so no call is in two of them, and at least `windowSize` calls; and it
  -- comes more than `minWindowTime` after every earlier one, in whatever order the clock reads. The
  -- bounds of the windows are not negative, and `minWindowTime` is at most `maxWindowTime`; no reading of
  -- the clock is the zero time or before; and there are fewer than 2^63 calls.
  pub feeds-IsSpaced :
      (calls : List Call) (w : WindowedLimit L)
      → w.next_update ≡ zero_time
      → w.window ≡ empty_window
      → pos 0 ≤ℤ w.min_window_time
      → w.min_window_time ≤ℤ w.max_window_time
      → AllSet calls
      → length calls < 2 ^ 63
      → ((after_calls calls w).delegate ≡ fed_with (feeds calls w []) w.delegate)
        × AllFull w.window_size (feeds calls w [])
        × IsSpaced w.min_window_time (feeds calls w [])
  feeds-IsSpaced calls w e empty l h t few =
      let (same, full) = calls-delegate calls [] w (omega arith) empty in
      (
        same,
        full,
        (calls-IsSpaced calls [] w.min_window_time w.max_window_time w l h t
            (record { low_kept = refl; high_kept = refl; started = ground (arith, e) })).1,
      )
