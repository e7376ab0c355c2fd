-- ===== src/Hub/Enrolment/Credentials.antt =====
-- hub/app.py, `api_pair` and `api_enroll`: the credentials that they hand out
-- are the ones that let the device in.
use vortex_portal.Base.{
  ℕ, ◌≡◌, ◌≢◌, refl, ap, ◌∙◌, inl, inr, Option, none, some, List, [], ◌∷◌, arith, length,
  Bool-cases,
}
use vortex_portal.Base.Text.{Text, text_eq_refl, strip, non_empty}
use vortex_portal.Db.Schema.{Db, Device, Result, ok, integrity_error}
use vortex_portal.Db.Devices.{create_device, authenticate_device}
use vortex_portal.Db.Devices.Credentials.{authenticate_device-create}
use vortex_portal.Db.Pairing.{consume_pairing_code, Paired}
use vortex_portal.Db.Tokens.{account_token_user}
use vortex_portal.Hub.Enrolment.{
  Enrolled, enrolled, denied, answer_with, pair_device, api_pair, enrol_by_token, api_enroll,
}

-- The owner of the device that a login with these credentials finds.
abbrev pub owner : Option Device → Option ℕ
owner none = none
owner (some d) = some d.owner_id

denied-not_enrolled :
    (status : ℕ) (db db' : Db) (id tok shown : Text) (urls : List Text)
    → ◌≢◌ {A = Enrolled × Db} (denied status, db) (enrolled id tok shown urls, db')
denied-not_enrolled status db db' id tok shown urls = ground arith

module _ (hash_token : Text → Text) where
  created-authenticates :
      (db db' : Db) (device_id name token : Text) (user_id now : ℕ)
      → create_device hash_token db device_id user_id name token none now ≡ ok db'
      → owner (authenticate_device hash_token db' device_id token) ≡ some user_id
  created-authenticates db db' device_id name token user_id now e =
      let (here, _) =
        authenticate_device-create hash_token db db' device_id (0 ∷ device_id) user_id now name
          token token none e (λ h. omega (arith, ap length h)) in
      ap owner here ∙ rw (text_eq_refl (hash_token token)) refl

  answer_with-authenticates :
      (db db' : Db) (user_id now : ℕ) (device_id token name id tok shown : Text)
      (nodes urls : List Text) (r : Result Db)
      → create_device hash_token db device_id user_id name token none now ≡ r
      → answer_with hash_token device_id token name nodes db r ≡ (enrolled id tok shown urls, db')
      → owner (authenticate_device hash_token db' id tok) ≡ some user_id
  answer_with-authenticates db db' user_id now device_id token name id tok shown nodes urls
        (ok made) c e =
      ground (arith, created-authenticates db made device_id name token user_id now c)
  answer_with-authenticates db db' user_id now device_id token name id tok shown nodes urls
        integrity_error c e =
      ground arith

  pair_device-authenticates :
      (r : Option Paired × Db) (db' : Db) (device_name device_id token id tok shown : Text)
      (urls : List Text) (now : ℕ)
      → pair_device hash_token device_name device_id token now r ≡ (enrolled id tok shown urls, db')
      → (user_id : ℕ) × (noted : Option Text) × (r.0 ≡ some (user_id, noted))
        × (owner (authenticate_device hash_token db' id tok) ≡ some user_id)
  pair_device-authenticates (none, db) db' device_name device_id token id tok shown urls now e =
      elim (denied-not_enrolled 403 db db' id tok shown urls e) [ ]
  pair_device-authenticates (some (user_id, noted), db) db' device_name device_id token id tok shown
        urls now e =
      (
        user_id,
        noted,
        refl,
        answer_with-authenticates db db' user_id now device_id token _ id tok shown [] urls _ refl
            e,
      )

  by_token-authenticates :
      (r : Option ℕ × Db) (db' : Db) (device_name device_id token here id tok shown : Text)
      (urls : List Text) (now : ℕ)
      → enrol_by_token hash_token device_name device_id token here now r
        ≡ (enrolled id tok shown urls, db')
      → (user_id : ℕ) × (r.0 ≡ some user_id)
        × (owner (authenticate_device hash_token db' id tok) ≡ some user_id)
  by_token-authenticates (none, db) db' device_name device_id token here id tok shown urls now e =
      elim (denied-not_enrolled 403 db db' id tok shown urls e) [ ]
  by_token-authenticates (some user_id, db) db' device_name device_id token here id tok shown urls
        now e =
      (
        user_id,
        refl,
        answer_with-authenticates db db' user_id now device_id token _ id tok shown _ urls _ refl e,
      )

  -- The credentials in an answer of `/api/pair` let a device in, as one of the user who had drawn
  -- the code that the call has consumed.
  pub api_pair-authenticates :
      (db db' : Db) (code device_name device_id token id tok shown : Text) (urls : List Text)
      (now : ℕ)
      → api_pair hash_token db code device_name device_id token now
        ≡ (enrolled id tok shown urls, db')
      → (user_id : ℕ) × (noted : Option Text) × ((consume_pairing_code db (strip code) now).0
          ≡ some (user_id, noted))
        × (owner (authenticate_device hash_token db' id tok) ≡ some user_id)
  unfolding api_pair
  api_pair-authenticates db db' code device_name device_id token id tok shown urls now e =
      elim (Bool-cases (non_empty (strip code))) [
        | inl n ↦
            pair_device-authenticates (consume_pairing_code db (strip code) now) db' device_name
              device_id token id tok shown urls now (rw n at e)
        | inr n ↦ elim (denied-not_enrolled 400 db db' id tok shown urls (rw n at e)) [ ]
      ]

  -- The credentials in an answer of `/api/enroll` let a device in, as one of the account whose token
  -- was shown.
  pub api_enroll-authenticates :
      (db db' : Db) (account_token device_name device_id token here id tok shown : Text)
      (urls : List Text) (now : ℕ)
      → api_enroll hash_token db account_token device_name device_id token here now
        ≡ (enrolled id tok shown urls, db')
      → (user_id : ℕ) × ((account_token_user hash_token db (strip account_token) now).0
          ≡ some user_id)
        × (owner (authenticate_device hash_token db' id tok) ≡ some user_id)
  unfolding api_enroll
  api_enroll-authenticates db db' account_token device_name device_id token here id tok shown urls
        now e =
      by_token-authenticates (account_token_user hash_token db (strip account_token) now) db'
        device_name device_id token here id tok shown urls now e
