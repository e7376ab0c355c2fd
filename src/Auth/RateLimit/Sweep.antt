-- ===== src/Auth/RateLimit/Sweep.antt =====
-- hub/auth.py, the login limiter: what the sweep of `rate_record_fail` does to one address.
use vortex_portal.Base.{
  ℕ, ◌-◌, ◌*◌, ◌≤◌, ◌≡◌, ◌⊎◌, inl, refl, true, none, List, [], ◌∷◌, arith, if◌then◌else◌, leb,
  length,
}
use vortex_portal.Base.Text.{Text, text_eq, text_eq_iff}
use vortex_portal.Base.Table.{matches}
use vortex_portal.Base.Dict.{Dict, get, put, remove, keys, get-put, get-remove}
use vortex_portal.Auth.RateLimit.{
  Limiter, log_of, trim, trim_key, sweep_logs, is_over, sweep_blocks, sweep,
}

-- The failures that an address has on record, and how many of them came at `start` or later.
abbrev pub log_at : Text → Limiter → List ℕ
log_at ip s = log_of (get ip s.fail_log)

abbrev pub since : ℕ → List ℕ → ℕ
since start log = matches (leb start) log

pub length-trim-le : (cutoff : ℕ) (log : List ℕ) → length (trim cutoff log) ≤ length log
unfolding trim
length-trim-le cutoff [] = omega arith
length-trim-le cutoff (t ∷ log) = ground (arith, length-trim-le cutoff log)

trim_idem : (cutoff : ℕ) (log : List ℕ) → trim cutoff (trim cutoff log) ≡ trim cutoff log
unfolding trim
trim_idem cutoff [] = refl
trim_idem cutoff (t ∷ log) = ground (arith, trim_idem cutoff log)

pub since-trim :
    (start cutoff : ℕ) (log : List ℕ)
    → cutoff ≤ start
    → since start (trim cutoff log) ≡ since start log
unfolding trim matches
since-trim start cutoff [] h = refl
since-trim start cutoff (t ∷ log) h = ground (arith, since-trim start cutoff log h)

pub since-le-length : (start : ℕ) (log : List ℕ) → since start log ≤ length log
unfolding matches
since-le-length start [] = omega arith
since-le-length start (t ∷ log) = ground (arith, since-le-length start log)

module _ (second : ℕ) (ip : Text) where
  -- What a sweep makes of one log: nothing, or the same log without what is old.
  trim_key_lem :
      (cutoff : ℕ) (k : Text) (d : Dict (List ℕ))
      → log_of (get ip (trim_key second cutoff k d))
        ≡ (if text_eq k ip then trim cutoff (log_of (get ip d)) else log_of (get ip d))
  unfolding trim_key
  trim_key_lem cutoff k d = go (trim cutoff (log_of (get k d))) refl
    where
      go :
          (l : List ℕ)
          → trim cutoff (log_of (get k d)) ≡ l
          → log_of (get ip (elim l [ [] ↦ remove k d | t ∷ rest ↦ put k (t ∷ rest) d ]))
            ≡ (if text_eq k ip then trim cutoff (log_of (get ip d)) else log_of (get ip d))
      go [] e = ground (arith, get-remove k ip d, text_eq_iff k ip)
      go (t ∷ rest) e = ground (arith, get-put k ip (t ∷ rest) d, text_eq_iff k ip)

  sweep_logs_lem :
      (cutoff : ℕ) (ks : List Text) (d : Dict (List ℕ))
      → (log_of (get ip (sweep_logs second cutoff ks d)) ≡ log_of (get ip d))
        ⊎ (log_of (get ip (sweep_logs second cutoff ks d)) ≡ trim cutoff (log_of (get ip d)))
  unfolding sweep_logs
  sweep_logs_lem cutoff [] d = inl refl
  sweep_logs_lem cutoff (k ∷ ks) d = ground (
    arith,
    sweep_logs_lem cutoff ks (trim_key second cutoff k d),
    trim_key_lem cutoff k d,
    trim_idem cutoff (log_of (get ip d)),
  )

  sweep_blocks_lem :
      (now : ℕ) (ks : List Text) (d : Dict ℕ)
      → (get ip (sweep_blocks second now ks d) ≡ get ip d)
        ⊎ ((get ip (sweep_blocks second now ks d) ≡ none) × (is_over second now (get ip d) ≡ true))
  unfolding sweep_blocks
  sweep_blocks_lem now [] d = inl refl
  sweep_blocks_lem now (k ∷ ks) d = ground (
    arith,
    sweep_blocks_lem now ks (if is_over second now (get k d) then remove k d else d),
    get-remove k ip d,
    text_eq_iff k ip,
  )

  pub sweep_log :
      (now : ℕ) (s : Limiter)
      → (log_at ip (sweep second now s) ≡ log_at ip s)
        ⊎ (log_at ip (sweep second now s) ≡ trim (now - 60 * second) (log_at ip s))
  unfolding sweep
  sweep_log now s = ground (arith, sweep_logs_lem (now - 60 * second) (keys s.fail_log) s.fail_log)

  pub sweep_block :
      (now : ℕ) (s : Limiter)
      → (get ip (sweep second now s).block_until ≡ get ip s.block_until)
        ⊎ ((get ip (sweep second now s).block_until ≡ none)
            × (is_over second now (get ip s.block_until) ≡ true))
  unfolding sweep
  sweep_block now s = ground (arith, sweep_blocks_lem now (keys s.block_until) s.block_until)
