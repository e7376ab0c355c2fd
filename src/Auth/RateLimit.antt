-- ===== src/Auth/RateLimit.antt =====
-- hub/auth.py, `rate_check`, `rate_record_fail`, `rate_clear`: the per-address limit on failed
-- logins. `time.monotonic()` counts in ticks, `second` of them to a second; what is subtracted
-- from it may be cut off at 0, below which no logged time lies.
pub mod Sweep
pub mod Lockout
use vortex_portal.Base.{
  ℕ, suc, ◌+◌, ◌-◌, ◌*◌, Bool, true, false, Option, none, some, List, [], ◌∷◌, ◌++◌, if◌then◌else◌,
  ltb, leb, ◌==◌, length,
}
use vortex_portal.Base.Text.{Text}
use vortex_portal.Base.Dict.{Dict, get, put, remove, keys}

abbrev pub rate_max : ℕ
rate_max = 5

abbrev pub max_tracked : ℕ
max_tracked = 10000

pub record Limiter : Type 0 where
  pub fail_log : Dict (List ℕ)
  pub block_until : Dict ℕ

-- `_fail_log[ip]`, whose default is an empty deque
abbrev pub log_of : Option (List ℕ) → List ℕ
log_of none = []
log_of (some l) = l

-- while log and log[0] < cutoff: log.popleft()
unfoldable pub trim : ℕ → List ℕ → List ℕ
trim cutoff [] = []
trim cutoff (t ∷ log) = let rest = trim cutoff log in if ltb t cutoff then rest else t ∷ log

module _ (second : ℕ) where
  abbrev pub rate_window : ℕ
  rate_window = 60 * second

  abbrev pub rate_block : ℕ
  rate_block = 300 * second

  -- The two loops of the sweep, over a snapshot of the keys.
  unfoldable pub trim_key : ℕ → Text → Dict (List ℕ) → Dict (List ℕ)
  unfolding trim
  trim_key cutoff k d = elim (trim cutoff (log_of (get k d))) [
    | [] ↦ remove k d
    | t ∷ rest ↦ put k (t ∷ rest) d
  ]

  unfoldable pub sweep_logs : ℕ → List Text → Dict (List ℕ) → Dict (List ℕ)
  unfolding trim_key
  sweep_logs cutoff [] d = d
  sweep_logs cutoff (k ∷ ks) d = sweep_logs cutoff ks (trim_key cutoff k d)

  abbrev pub is_over : ℕ → Option ℕ → Bool
  is_over now none = false
  is_over now (some until) = leb until now

  unfoldable pub sweep_blocks : ℕ → List Text → Dict ℕ → Dict ℕ
  sweep_blocks now [] d = d
  sweep_blocks now (k ∷ ks) d =
      sweep_blocks now ks (if is_over now (get k d) then remove k d else d)

  unfoldable pub sweep : ℕ → Limiter → Limiter
  unfolding sweep_logs sweep_blocks
  sweep now s =
      if ltb max_tracked (length s.fail_log)
      then (record {
        fail_log = sweep_logs (now - rate_window) (keys s.fail_log) s.fail_log;
        block_until = sweep_blocks now (keys s.block_until) s.block_until;
      })
      else s

  -- The rest of `rate_record_fail`, after the sweep.
  unfoldable pub note_fail : Text → ℕ → Limiter → Limiter
  unfolding trim
  note_fail ip now s =
      let log = trim (now - rate_window) (log_of (get ip s.fail_log)) ++ now ∷ [] in
      if leb rate_max (length log)
      then (record {
        fail_log = put ip [] s.fail_log;
        block_until = put ip (now + rate_block) s.block_until;
      })
      else (record s { fail_log = put ip log s.fail_log })

  unfoldable pub rate_record_fail : Text → ℕ → Limiter → Limiter
  unfolding sweep note_fail
  rate_record_fail ip now s = note_fail ip now (sweep now s)

  abbrev pub checked : Text → ℕ → Limiter → Option ℕ → ℕ × Limiter
  checked ip now s none = (0, s)
  checked ip now s (some until) =
      if ltb now until
      then (until - now, s)
      else (0, record { fail_log = remove ip s.fail_log; block_until = remove ip s.block_until })

  -- The ticks that remain, 0 if the address is not blocked.
  unfoldable pub rate_check : Text → ℕ → Limiter → ℕ × Limiter
  rate_check ip now s = checked ip now s (get ip s.block_until)

  unfoldable pub rate_clear : Text → Limiter → Limiter
  rate_clear ip s = record {
    fail_log = remove ip s.fail_log;
    block_until = remove ip s.block_until;
  }
