-- ===== src/Db/Pairing/Once.antt =====
-- hub/db.py, "Pairing codes": one code through the calls that follow, until it is redeemed and
-- after.
use vortex_portal.Base.{
  ℕ, ◌≡◌, ◌≢◌, true, ◌&&◌, not, is_some, Option, none, some, List, [], ◌∷◌, arith, ltb, All,
  Bool-cases, inl, inr, ◌∙◌, ltb,
}
use vortex_portal.Base.Text.{Text, text_eq_iff}
use vortex_portal.Base.Table.{
  find, delete, find-append_unseen, find-delete_unseen, find-update_unseen, find-update_absent,
  find_mono,
}
use vortex_portal.Db.Schema.{Db, PairingCode, user_exists}
use vortex_portal.Db.Purge.{purge_expired}
use vortex_portal.Db.Pairing.{
  six_digits, stale, has_code, create_pairing_code, usable, unspent, Paired, consume_row,
  consume_pairing_code,
}

pub data PairingCall : Type 0 where
  creates : ℕ → Option Text → ℕ → ℕ → PairingCall
  consumes : Text → ℕ → PairingCall
  purges : ℕ → PairingCall

unfoldable pub step : Db → PairingCall → Db
step db (creates user_id name drawn now) = (create_pairing_code db user_id name drawn now).1
step db (consumes code now) = (consume_pairing_code db code now).1
step db (purges now) = purge_expired db now

unfoldable pub run : Db → List PairingCall → Db
run db [] = db
run db (c ∷ cs) = run (step db c) cs

-- No other call draws the same digits.
abbrev pub DrawsOther : Text → PairingCall → Type 0
DrawsOther code (creates user_id name drawn now) = six_digits drawn ≢ code
DrawsOther code (consumes other now) = Unit
DrawsOther code (purges now) = Unit

abbrev IsSpent : Db → Text → Type 0
IsSpent db code = find (unspent code) db.pairing_codes ≡ none

create-IsSpent :
    (db : Db) (code : Text) (user_id drawn now : ℕ) (name : Option Text)
    → six_digits drawn ≢ code
    → IsSpent db code
    → IsSpent (create_pairing_code db user_id name drawn now).1 code
unfolding create_pairing_code
create-IsSpent db code user_id drawn now name d k =
    elim (Bool-cases (
      user_exists db user_id
      && not (
          is_some
            (find (has_code (six_digits drawn)) (delete (stale user_id now) db.pairing_codes))))) [
              | inl go ↦ rw go (
                  find-append_unseen (unspent code) (delete (stale user_id now) db.pairing_codes) _
                    (ground (arith, text_eq_iff (six_digits drawn) code))
                  ∙ find-delete_unseen (unspent code) (stale user_id now) db.pairing_codes k)
              | inr stop ↦
                  rw stop (find-delete_unseen (unspent code) (stale user_id now) db.pairing_codes k)
            ]

consume_row-IsSpent :
    (db : Db) (code other : Text) (row : Option PairingCode)
    → IsSpent db code
    → IsSpent (consume_row db other row).1 code
consume_row-IsSpent db code other none k = k
consume_row-IsSpent db code other (some row) k =
    let e =
      find-update_absent (unspent code) (unspent other)
        (λ (r : PairingCode). record r { used = true }) db.pairing_codes (λ a h. ground arith) k in
    ground (arith, e)

step-IsSpent :
    (db : Db) (code : Text) (c : PairingCall)
    → DrawsOther code c
    → IsSpent db code
    → IsSpent (step db c) code
unfolding step consume_pairing_code purge_expired
step-IsSpent db code (creates u name drawn now) d k = create-IsSpent db code u drawn now name d k
step-IsSpent db code (consumes other now) d k = consume_row-IsSpent db code other _ k
step-IsSpent db code (purges now) d k =
    find-delete_unseen (unspent code) (λ r. ltb r.expires_at now) db.pairing_codes k

run-IsSpent :
    (cs : List PairingCall) (db : Db) (code : Text)
    → All (DrawsOther code) cs
    → IsSpent db code
    → IsSpent (run db cs) code
unfolding run
run-IsSpent [] db code d k = k
run-IsSpent (c ∷ cs) db code d k =
    run-IsSpent cs (step db c) code d.1 (step-IsSpent db code c d.0 k)

consume-IsSpent :
    (db : Db) (code : Text) (row : PairingCode) → IsSpent (consume_row db code (some row)).1 code
consume-IsSpent db code row =
    let e =
      find-update_unseen (unspent code) (unspent code)
        (λ (r : PairingCode). record r { used = true }) db.pairing_codes (λ a h. h)
        (λ a h. ground arith) in
    ground (arith, e)

IsSpent-refused :
    (db : Db) (code : Text) (t : ℕ) → IsSpent db code → (consume_pairing_code db code t).0 ≡ none
unfolding consume_pairing_code
IsSpent-refused db code t k =
    rw (find_mono (usable code t) (unspent code) db.pairing_codes (λ a h. ground arith) k)

-- A pairing code pairs one device: once a call has redeemed it, every later attempt is refused,
-- whatever codes are created, redeemed or purged in between, as long as no new code has its digits.
pub pairing_code_once :
    (db : Db) (code : Text) (now : ℕ) (p : Paired) (cs : List PairingCall) (later : ℕ)
    → (consume_pairing_code db code now).0 ≡ some p
    → All (DrawsOther code) cs
    → (consume_pairing_code (run (consume_pairing_code db code now).1 cs) code later).0 ≡ none
unfolding consume_pairing_code
pairing_code_once db code now p cs later e d =
    IsSpent-refused _ code later
      (run-IsSpent cs _ code d (go (find (usable code now) db.pairing_codes) e))
  where
    go :
        (row : Option PairingCode)
        → (consume_row db code row).0 ≡ some p
        → IsSpent (consume_row db code row).1 code
    go none h = absurd (ground arith)
    go (some r) h = consume-IsSpent db code r
