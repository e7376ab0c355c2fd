-- ===== src/Db/Pairing.antt =====
-- hub/db.py, "Pairing codes": six digits, ten minutes, one use. `drawn` is what
-- `secrets.randbelow(1_000_000)` gave.
pub mod Once
pub mod Redeem
use vortex_portal.Base.{
  ℕ, ◌+◌, ◌/◌, ◌%◌, Bool, true, false, ◌&&◌, ◌||◌, not, Option, none, some, List, [], ◌∷◌, ◌++◌,
  if◌then◌else◌, ltb, ◌==◌, is_some,
}
use vortex_portal.Base.Text.{Text, text_eq}
use vortex_portal.Base.Table.{find, delete, update, matches}
use vortex_portal.Db.Schema.{Db, PairingCode, Result, ok, integrity_error, user_exists}

abbrev pub pairing_ttl : ℕ
pairing_ttl = 600

-- f"{drawn:06d}", for a number below 1_000_000
unfoldable pub six_digits : ℕ → Text
six_digits n =
    (48 + n / 100000 % 10)
    ∷ (48 + n / 10000 % 10)
    ∷ (48 + n / 1000 % 10)
    ∷ (48 + n / 100 % 10)
    ∷ (48 + n / 10 % 10)
    ∷ (48 + n % 10)
    ∷ []

-- WHERE expires_at < ? OR (user_id = ? AND used = 0)
abbrev pub stale : ℕ → ℕ → PairingCode → Bool
stale user_id now r = ltb r.expires_at now || (r.user_id == user_id && not r.used)

abbrev pub has_code : Text → PairingCode → Bool
has_code code r = text_eq r.code code

-- The code, or none where the INSERT raises IntegrityError; the connection is in autocommit mode,
-- so that the DELETE before it stays in either case.
unfoldable pub create_pairing_code : Db → ℕ → Option Text → ℕ → ℕ → Option Text × Db
create_pairing_code db user_id device_name drawn now =
    let code = six_digits drawn in
    let left = delete (stale user_id now) db.pairing_codes in
    if user_exists db user_id && not (is_some (find (has_code code) left))
    then (
      some code,
      record db {
        pairing_codes =
            left
            ++ (record {
              code = code;
              user_id = user_id;
              device_name = device_name;
              expires_at = now + pairing_ttl;
              used = false;
            })
              ∷ [];
      },
    )
    else (none, record db { pairing_codes = left })

-- WHERE code = ? AND used = 0 AND expires_at > ?
abbrev pub usable : Text → ℕ → PairingCode → Bool
usable code now r = has_code code r && (not r.used && ltb now r.expires_at)

-- WHERE code = ? AND used = 0
abbrev pub unspent : Text → PairingCode → Bool
unspent code r = has_code code r && not r.used

abbrev pub Paired : Type 0
Paired = ℕ × Option Text

-- From the row that the SELECT found.
abbrev consume_row : Db → Text → Option PairingCode → Option Paired × Db
consume_row db code none = (none, db)
consume_row db code (some row) =
    let db' : Db = record db {
      pairing_codes = update (unspent code) (λ r. record r { used = true }) db.pairing_codes;
    } in
    if matches (unspent code) db.pairing_codes == 0
    then (none, db')
    else (some (row.user_id, row.device_name), db')

unfoldable pub consume_pairing_code : Db → Text → ℕ → Option Paired × Db
consume_pairing_code db code now = consume_row db code (find (usable code now) db.pairing_codes)
