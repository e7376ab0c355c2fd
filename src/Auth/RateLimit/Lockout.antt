-- ===== src/Auth/RateLimit/Lockout.antt =====
-- hub/auth.py, the login limiter: five failures in a minute lock an address out for five.
use vortex_portal.Base.{
  ℕ, suc, ◌+◌, ◌-◌, ◌*◌, ◌≤◌, ◌<◌, ◌≡◌, ◌≢◌, ◌⊎◌, inl, inr, refl, ◌∙◌, none, some, List, [], ◌∷◌,
  ◌++◌, arith, if◌then◌else◌, leb, length, length-append, Bool-cases, All,
}
use vortex_portal.Base.Text.{Text, text_eq, text_eq_iff, text_eq_refl}
use vortex_portal.Base.Table.{matches, matches-append}
use vortex_portal.Base.Dict.{get, get-put, get-remove}
use vortex_portal.Auth.RateLimit.{
  Limiter, log_of, trim, sweep, note_fail, rate_record_fail, rate_check, rate_clear,
}
use vortex_portal.Auth.RateLimit.Sweep.{
  log_at, since, length-trim-le, since-trim, since-le-length, sweep_log, sweep_block,
}
use native.Mathlib.Nat.{add-zero}
use mathlib.Core.Path.{subst}

-- The calls of the login handlers, each with its address and its time.
pub data Call : Type 0 where
  fails : Text → ℕ → Call
  checks : Text → ℕ → Call
  clears : Text → Call

abbrev pub no_record : Limiter
no_record = record { fail_log = []; block_until = [] }

module _ (second : ℕ) where
  pub step : Limiter → Call → Limiter
  step s (fails ip now) = rate_record_fail second ip now s
  step s (checks ip now) = (rate_check second ip now s).1
  step s (clears ip) = rate_clear second ip s

  unfoldable pub run : Limiter → List Call → Limiter
  run s [] = s
  run s (c ∷ cs) = run (step s c) cs

  module _ (ip : Text) where
    -- An address is locked out before five failures are on record.
    abbrev IsBounded : Limiter → Type 0
    IsBounded s = length (log_at ip s) < 5

    note_fail-IsBounded :
        (who : Text) (now : ℕ) (s : Limiter) → IsBounded s → IsBounded (note_fail second who now s)
    unfolding note_fail
    note_fail-IsBounded who now s h = ground (
      arith,
      get-put who ip [] s.fail_log,
      get-put who ip (trim (now - 60 * second) (log_of (get who s.fail_log)) ++ now ∷ [])
          s.fail_log,
    )

    sweep-IsBounded : (now : ℕ) (s : Limiter) → IsBounded s → IsBounded (sweep second now s)
    sweep-IsBounded now s h =
        ground (arith, sweep_log second ip now s, length-trim-le (now - 60 * second) (log_at ip s))

    step-IsBounded : (s : Limiter) (c : Call) → IsBounded s → IsBounded (step s c)
    unfolding step rate_record_fail rate_check rate_clear
    step-IsBounded s (fails who now) h = note_fail-IsBounded who now _ (sweep-IsBounded now s h)
    step-IsBounded s (checks who now) h = ground (arith, get-remove who ip s.fail_log)
    step-IsBounded s (clears who) h = ground (arith, get-remove who ip s.fail_log)

    -- The address is locked until `end` or later, or is not locked and has `n` failures on record since `start`.
    abbrev Presses : ℕ → ℕ → ℕ → Limiter → Type 0
    Presses start end n s =
        ((until : ℕ) × (get ip s.block_until ≡ some until) × (end ≤ until))
        ⊎ ((get ip s.block_until ≡ none) × (n ≤ since start (log_at ip s)))

    -- A call in the minute from `start`, and no success of the address.
    abbrev pub InMinute : ℕ → Call → Type 0
    InMinute start (fails who now) = (start ≤ now) × (now ≤ start + 60 * second)
    InMinute start (checks who now) = now ≤ start + 60 * second
    InMinute start (clears who) = who ≢ ip

    -- How many of the calls are failures of the address.
    abbrev pub failures : List Call → ℕ
    failures [] = 0
    failures (fails who now ∷ cs) =
        let rest = failures cs in if text_eq who ip then suc rest else rest
    failures (checks who now ∷ cs) = failures cs
    failures (clears who ∷ cs) = failures cs

    sweep-Presses :
        (start now n : ℕ) (s : Limiter)
        → now < start + 300 * second
        → now ≤ start + 60 * second
        → Presses start (start + 300 * second) n s
        → Presses start (start + 300 * second) n (sweep second now s)
    sweep-Presses start now n s b c (inl (until, e, h)) =
        inl (until, ground (arith, sweep_block second ip now s), h)
    sweep-Presses start now n s b c (inr (e, h)) = inr (
      ground (arith, sweep_block second ip now s),
      ground (arith, sweep_log second ip now s, since-trim start (now - 60 * second) (log_at ip s)),
    )

    note_fail-other :
        (who : Text) (start end now n : ℕ) (s : Limiter)
        → who ≢ ip
        → Presses start end n s
        → Presses start end n (note_fail second who now s)
    unfolding note_fail
    note_fail-other who start end now n s d (inl (until, e, h)) = inl (
      until,
      ground (arith, text_eq_iff who ip, get-put who ip (now + 300 * second) s.block_until),
      h,
    )
    note_fail-other who start end now n s d (inr (e, h)) = inr (
      ground (arith, text_eq_iff who ip, get-put who ip (now + 300 * second) s.block_until),
      ground (
        arith,
        text_eq_iff who ip,
        get-put who ip [] s.fail_log,
        get-put who ip (trim (now - 60 * second) (log_of (get who s.fail_log)) ++ now ∷ [])
            s.fail_log,
      ),
    )

    note_fail-own :
        (start now n : ℕ) (s : Limiter)
        → start ≤ now
        → now ≤ start + 60 * second
        → Presses start (start + 300 * second) n s
        → Presses start (start + 300 * second) (suc n) (note_fail second ip now s)
    unfolding note_fail
    note_fail-own start now n s a b p = elim (Bool-cases (leb 5 (length log))) [
      | inl full ↦ inl (
        now + 300 * second,
        ground (arith, text_eq_refl ip, get-put ip ip (now + 300 * second) s.block_until),
        omega arith,
      )
      | inr room ↦ elim p [
        | inl (until, e, h) ↦ inl (until, ground arith, h)
        | inr (e, h) ↦
            inr
              (ground arith, ground (arith, text_eq_refl ip, get-put ip ip log s.fail_log, counted))
      ]
    ]
      where
        log : List ℕ
        log = trim (now - 60 * second) (log_at ip s) ++ now ∷ []

        last : since start (now ∷ []) ≡ 1
        last = unfold matches in ground arith

        counted : since start log ≡ since start (log_at ip s) + 1
        counted =
            matches-append (leb start) (trim (now - 60 * second) (log_at ip s)) (now ∷ [])
            ∙ omega (arith, last, since-trim start (now - 60 * second) (log_at ip s))

    fails-Presses :
        (who : Text) (start now n : ℕ) (s : Limiter)
        → 0 < second
        → start ≤ now
        → now ≤ start + 60 * second
        → Presses start (start + 300 * second) n s
        → Presses start
            (start + 300 * second)
            (if text_eq who ip then suc n else n)
            (rate_record_fail second who now s)
    unfolding rate_record_fail
    fails-Presses who start now n s z a b p =
        let q = sweep-Presses start now n s (omega arith) b p in
        elim (Bool-cases (text_eq who ip)) [
          | inl own ↦
              rw (own, (text_eq_iff who ip).0 own)
                (note_fail-own start now n (sweep second now s) a b q)
          | inr other ↦ rw other (
              note_fail-other who start _ now n (sweep second now s)
                (ground (arith, text_eq_iff who ip)) q)
        ]

    checks-Presses :
        (who : Text) (start now n : ℕ) (s : Limiter)
        → 0 < second
        → now ≤ start + 60 * second
        → Presses start (start + 300 * second) n s
        → Presses start (start + 300 * second) n (rate_check second who now s).1
    unfolding rate_check
    checks-Presses who start now n s z b (inl (until, e, h)) =
        inl (until, ground (arith, text_eq_iff who ip, get-remove who ip s.block_until), h)
    checks-Presses who start now n s z b (inr (e, h)) = inr (
      ground (arith, get-remove who ip s.block_until),
      ground (arith, text_eq_iff who ip, get-remove who ip s.fail_log),
    )

    clears-Presses :
        (who : Text) (start end n : ℕ) (s : Limiter)
        → who ≢ ip
        → Presses start end n s
        → Presses start end n (rate_clear second who s)
    unfolding rate_clear
    clears-Presses who start end n s d (inl (until, e, h)) =
        inl (until, ground (arith, text_eq_iff who ip, get-remove who ip s.block_until), h)
    clears-Presses who start end n s d (inr (e, h)) = inr (
      ground (arith, get-remove who ip s.block_until),
      ground (arith, text_eq_iff who ip, get-remove who ip s.fail_log),
    )

    run-Presses :
        (cs : List Call) (start n : ℕ) (s : Limiter)
        → 0 < second
        → All (InMinute start) cs
        → Presses start (start + 300 * second) n s
        → Presses start (start + 300 * second) (n + failures cs) (run s cs)
    unfolding run step
    run-Presses [] start n s z a p = rw add-zero p
    run-Presses (fails who now ∷ cs) start n s z a p =
        subst
          (λ k. Presses start (start + 300 * second) k (run (rate_record_fail second who now s) cs))
          (ground arith)
          (run-Presses cs start _ _ z a.1 (fails-Presses who start now n s z a.0.0 a.0.1 p))
    run-Presses (checks who now ∷ cs) start n s z a p =
        run-Presses cs start n _ z a.1 (checks-Presses who start now n s z a.0 p)
    run-Presses (clears who ∷ cs) start n s z a p =
        run-Presses cs start n _ z a.1 (clears-Presses who start _ n s a.0 p)

    run-IsBounded : (cs : List Call) (s : Limiter) → IsBounded s → IsBounded (run s cs)
    unfolding run
    run-IsBounded [] s h = h
    run-IsBounded (c ∷ cs) s h = run-IsBounded cs (step s c) (step-IsBounded s c h)

    check-unlocks :
        (now : ℕ) (s : Limiter)
        → (rate_check second ip now s).0 ≡ 0
        → get ip (rate_check second ip now s).1.block_until ≡ none
    unfolding rate_check
    check-unlocks now s h = ground (arith, get-remove ip ip s.block_until, text_eq_refl ip)

    Presses-blocked :
        (start n t : ℕ) (s : Limiter)
        → 5 ≤ n
        → IsBounded s
        → t < start + 300 * second
        → Presses start (start + 300 * second) n s
        → 0 < (rate_check second ip t s).0
    unfolding rate_check
    Presses-blocked start n t s h b c (inl (until, e, k)) = ground arith
    Presses-blocked start n t s h b c (inr (e, k)) =
        absurd (omega (arith, since-le-length start (log_at ip s)))

    -- Whatever went before, if an address that a check lets through fails five times within a
    -- minute of that check and does not succeed, it is blocked until five minutes after the check at
    -- least, whatever other addresses do in between and whatever the sweep forgets.
    pub five_failures_block :
        (before cs : List Call) (start t : ℕ)
        → 0 < second
        → (rate_check second ip start (run no_record before)).0 ≡ 0
        → All (InMinute start) cs
        → 5 ≤ failures cs
        → t < start + 300 * second
        → 0
          < (rate_check second ip t
              (run (rate_check second ip start (run no_record before)).1 cs)).0
    unfolding get step
    five_failures_block before cs start t z free a five b =
        let s = (rate_check second ip start (run no_record before)).1 in
        Presses-blocked start (0 + failures cs) t (run s cs) (omega arith)
          (run-IsBounded cs s (
            step-IsBounded (run no_record before) (checks ip start)
              (run-IsBounded before no_record (omega arith))))
          b (run-Presses cs start 0 s z a (inr (check-unlocks start _ free, omega arith)))

    -- The address is not locked, and has `n` failures on record at most.
    abbrev IsQuiet : ℕ → Limiter → Type 0
    IsQuiet n s = (get ip s.block_until ≡ none) × (length (log_at ip s) ≤ n)

    note_fail-IsQuiet :
        (who : Text) (now n : ℕ) (s : Limiter)
        → n + (if text_eq who ip then 1 else 0) < 5
        → IsQuiet n s
        → IsQuiet (n + (if text_eq who ip then 1 else 0)) (note_fail second who now s)
    unfolding note_fail
    note_fail-IsQuiet who now n s b (e, h) = ground (
      arith,
      text_eq_iff who ip,
      length-trim-le (now - 60 * second) (log_at ip s),
      length-append (trim (now - 60 * second) (log_at ip s)) (now ∷ []),
      get-put who ip (now + 300 * second) s.block_until,
      get-put who ip [] s.fail_log,
      get-put who ip (trim (now - 60 * second) (log_of (get who s.fail_log)) ++ now ∷ [])
          s.fail_log,
    )

    sweep-IsQuiet : (now n : ℕ) (s : Limiter) → IsQuiet n s → IsQuiet n (sweep second now s)
    sweep-IsQuiet now n s (e, h) = (
      ground (arith, sweep_block second ip now s),
      ground (arith, sweep_log second ip now s, length-trim-le (now - 60 * second) (log_at ip s)),
    )

    run-IsQuiet :
        (cs : List Call) (n : ℕ) (s : Limiter)
        → n + failures cs < 5
        → IsQuiet n s
        → get ip (run s cs).block_until ≡ none
    unfolding run step rate_record_fail rate_check rate_clear
    run-IsQuiet [] n s b h = h.0
    run-IsQuiet (fails who now ∷ cs) n s b h =
        run-IsQuiet cs (n + (if text_eq who ip then 1 else 0)) _ (ground arith)
          (note_fail-IsQuiet who now n _ (ground arith) (sweep-IsQuiet now n s h))
    run-IsQuiet (checks who now ∷ cs) n s b h =
        run-IsQuiet cs n _ b
          (ground (arith, get-remove who ip s.block_until, get-remove who ip s.fail_log))
    run-IsQuiet (clears who ∷ cs) n s b h =
        run-IsQuiet cs n _ b
          (ground (arith, get-remove who ip s.block_until, get-remove who ip s.fail_log))

    -- Whatever went before, from a successful login on an address is let through until it has
    -- failed five times, whatever other addresses do.
    pub rate_clear-unblocks :
        (before cs : List Call) (t : ℕ)
        → failures cs < 5
        → (rate_check second ip t (run (rate_clear second ip (run no_record before)) cs)).0 ≡ 0
    unfolding rate_check rate_clear
    rate_clear-unblocks before cs t b =
        let s = run no_record before in
        rw
          (run-IsQuiet cs 0 (rate_clear second ip s) (omega arith) (
            ground (
              arith,
              get-remove ip ip s.block_until,
              get-remove ip ip s.fail_log,
              text_eq_refl ip,
            )))
          refl
