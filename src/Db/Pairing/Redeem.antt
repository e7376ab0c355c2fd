-- ===== src/Db/Pairing/Redeem.antt =====
-- hub/db.py, "Pairing codes": what a live code is worth, and what creating one does to the others.
use vortex_portal.Base.{
  ℕ, ◌+◌, ◌≤◌, ◌<◌, ◌≡◌, ◌≢◌, ◌⊎◌, refl, true, false, ◌&&◌, not, is_some, ◌==◌, Option, none, some,
  List, [], ◌∷◌, arith, ltb, All, Bool-cases, inl, inr, ◌∙◌, ltb,
}
use vortex_portal.Base.Text.{Text, text_eq_iff, text_eq_refl}
use vortex_portal.Base.Table.{
  find, delete, find-append_new, find-append_some, find-delete_spared, find-update_spared,
  find_narrow, find-holds, matches_zero, find-is_some, find-delete_spares, find-append_cases,
  find_mono, find-delete_self,
}
use vortex_portal.Db.Schema.{Db, PairingCode, user_exists}
use vortex_portal.Db.Purge.{purge_expired}
use vortex_portal.Db.Pairing.{
  pairing_ttl, six_digits, stale, has_code, create_pairing_code, usable, unspent, Paired,
  consume_row, consume_pairing_code,
}
use vortex_portal.Db.Pairing.Once.{PairingCall, creates, consumes, purges, step, run}

-- A call that leaves a code of `user_id` alone: another user's, about other digits, or the
-- housekeeping; none comes after the code's end.
abbrev pub Spares : PairingCode → PairingCall → Type 0
Spares r (creates user_id name drawn now) = (user_id ≢ r.user_id) × (now ≤ r.expires_at)
Spares r (consumes other now) = other ≢ r.code
Spares r (purges now) = now ≤ r.expires_at

abbrev Stands : Db → PairingCode → Type 0
Stands db r = find (has_code r.code) db.pairing_codes ≡ some r

create-Stands :
    (db : Db) (r : PairingCode) (user_id drawn now : ℕ) (name : Option Text)
    → user_id ≢ r.user_id
    → now ≤ r.expires_at
    → Stands db r
    → Stands (create_pairing_code db user_id name drawn now).1 r
unfolding create_pairing_code
create-Stands db r user_id drawn now name d b k =
    elim (Bool-cases (
      user_exists db user_id
      && not (
          is_some
            (find (has_code (six_digits drawn)) (delete (stale user_id now) db.pairing_codes))))) [
              | inl go ↦ rw go (
                  find-append_some (has_code r.code) (delete (stale user_id now) db.pairing_codes) _
                    r
                    (find-delete_spared (has_code r.code) (stale user_id now) db.pairing_codes r k
                      (ground arith)))
              | inr stop ↦ rw stop (
                  find-delete_spared (has_code r.code) (stale user_id now) db.pairing_codes r k
                    (ground arith))
            ]

consume_row-Stands :
    (db : Db) (r : PairingCode) (other : Text) (row : Option PairingCode)
    → other ≢ r.code
    → Stands db r
    → Stands (consume_row db other row).1 r
consume_row-Stands db r other none d k = k
consume_row-Stands db r other (some row) d k =
    let e =
      find-update_spared (has_code r.code) (unspent other)
        (λ (a : PairingCode). record a { used = true }) db.pairing_codes r (λ a. refl) k
        (ground (arith, text_eq_iff r.code other)) in
    ground (arith, e)

step-Stands :
    (db : Db) (r : PairingCode) (c : PairingCall) → Spares r c → Stands db r → Stands (step db c) r
unfolding step consume_pairing_code purge_expired
step-Stands db r (creates u name drawn now) d k = create-Stands db r u drawn now name d.0 d.1 k
step-Stands db r (consumes other now) d k = consume_row-Stands db r other _ d k
step-Stands db r (purges now) d k =
    find-delete_spared (has_code r.code) (λ a. ltb a.expires_at now) db.pairing_codes r k
      (ground arith)

run-Stands :
    (cs : List PairingCall) (db : Db) (r : PairingCode)
    → All (Spares r) cs
    → Stands db r
    → Stands (run db cs) r
unfolding run
run-Stands [] db r d k = k
run-Stands (c ∷ cs) db r d k = run-Stands cs (step db c) r d.1 (step-Stands db r c d.0 k)

consume-Stands :
    (db : Db) (r : PairingCode) (t : ℕ)
    → Stands db r
    → r.used ≡ false
    → t < r.expires_at
    → (consume_pairing_code db r.code t).0 ≡ some (r.user_id, r.device_name)
unfolding consume_pairing_code
consume-Stands db r t k u b =
    let found =
      find_narrow (has_code r.code) (λ a. not a.used && ltb t a.expires_at) db.pairing_codes r k
        (ground arith) in
    let own =
      find-is_some (has_code r.code) (unspent r.code) db.pairing_codes r k
        (ground (arith, text_eq_refl r.code)) in
    rw found (ground (arith, own, matches_zero (unspent r.code) db.pairing_codes))

create_lem :
    (db db' : Db) (user_id drawn now : ℕ) (name : Option Text) (code : Text)
    → create_pairing_code db user_id name drawn now ≡ (some code, db')
    → (code ≡ six_digits drawn)
      × Stands db' (record {
        code = six_digits drawn;
        user_id = user_id;
        device_name = name;
        expires_at = now + pairing_ttl;
        used = false;
      })
unfolding create_pairing_code
create_lem db db' user_id drawn now name code e =
    let left = delete (stale user_id now) db.pairing_codes in
    let new : PairingCode = record {
      code = six_digits drawn;
      user_id = user_id;
      device_name = name;
      expires_at = now + pairing_ttl;
      used = false;
    } in
    ground (
      arith,
      text_eq_refl (six_digits drawn),
      find-append_new (has_code (six_digits drawn)) left new,
    )

-- For ten minutes the code that a call has returned redeems to the user who asked for it and the
-- device name that came with it, as long as nobody redeems it and that user asks for no other.
pub pairing_code_redeems :
    (db db' : Db) (user_id drawn now : ℕ) (name : Option Text) (code : Text) (cs : List PairingCall)
    (t : ℕ)
    → create_pairing_code db user_id name drawn now ≡ (some code, db')
    → All
        (Spares (record {
          code = six_digits drawn;
          user_id = user_id;
          device_name = name;
          expires_at = now + pairing_ttl;
          used = false;
        }))
        cs
    → t < now + 600
    → (consume_pairing_code (run db' cs) code t).0 ≡ some (user_id, name)
pairing_code_redeems db db' user_id drawn now name code cs t e f b =
    let (same, stands) = create_lem db db' user_id drawn now name code e in
    rw same (consume-Stands (run db' cs) _ t (run-Stands cs db' _ f stands) refl b)

row-revokes :
    (db db' : Db) (user_id drawn now : ℕ) (name : Option Text) (code other : Text) (t : ℕ)
    (r : PairingCode)
    → create_pairing_code db user_id name drawn now ≡ (some code, db')
    → find (usable other t) db'.pairing_codes ≡ some r
    → (r.user_id ≢ user_id) ⊎ (other ≡ code)
unfolding create_pairing_code
row-revokes db db' user_id drawn now name code other t r e f =
    let left = delete (stale user_id now) db.pairing_codes in
    let new : PairingCode = record {
      code = six_digits drawn;
      user_id = user_id;
      device_name = name;
      expires_at = now + pairing_ttl;
      used = false;
    } in
    ground (
      arith,
      find-holds (usable other t) db'.pairing_codes r,
      find-append_cases (usable other t) left new r,
      find-delete_spares (usable other t) (stale user_id now) db.pairing_codes r,
      text_eq_iff (six_digits drawn) other,
    )

consumed_row :
    (db : Db) (other : Text) (row : Option PairingCode) (p : Paired)
    → (consume_row db other row).0 ≡ some p
    → (r : PairingCode) × (row ≡ some r) × (r.user_id ≡ p.0)
consumed_row db other none p e = absurd (ground arith)
consumed_row db other (some r) p e = (r, refl, ground arith)

-- The new code is the only one that redeems to its user: asking for a code revokes the earlier
-- ones that were not used.
pub create_pairing_code-revokes :
    (db db' : Db) (user_id drawn now : ℕ) (name : Option Text) (code other : Text) (t : ℕ)
    (p : Paired)
    → create_pairing_code db user_id name drawn now ≡ (some code, db')
    → (consume_pairing_code db' other t).0 ≡ some p
    → other ≢ code
    → p.0 ≢ user_id
unfolding consume_pairing_code
create_pairing_code-revokes db db' user_id drawn now name code other t p e c d q =
    let (r, found, same) = consumed_row db' other _ p c in
    elim (row-revokes db db' user_id drawn now name code other t r e found) [
      | inl apart ↦ apart (same ∙ q)
      | inr equal ↦ d equal
    ]

-- Where the digits that were drawn belong to a code that the first statement keeps, another
-- user's live one or a used one that is not over, the call raises: no code is created, the user's
-- unused codes are gone all the same, and the code in the way stays as it was.
pub create_pairing_code-collision :
    (db : Db) (user_id drawn now : ℕ) (name : Option Text) (r : PairingCode)
    → Stands db r
    → r.code ≡ six_digits drawn
    → (user_id ≢ r.user_id) ⊎ (r.used ≡ true)
    → now ≤ r.expires_at
    → let (answer, db') = create_pairing_code db user_id name drawn now in
      (answer ≡ none)
      × (db'.pairing_codes ≡ delete (stale user_id now) db.pairing_codes)
      × Stands db' r
      × (find (λ c. c.user_id == user_id && not c.used) db'.pairing_codes ≡ none)
unfolding create_pairing_code
create_pairing_code-collision db user_id drawn now name r k e u b =
    let left = delete (stale user_id now) db.pairing_codes in
    let spared =
      find-delete_spared (has_code r.code) (stale user_id now) db.pairing_codes r k
        (ground arith) in
    let taken : (user_exists db user_id && not (is_some (find (has_code (six_digits drawn)) left)))
        ≡ false =
      ground (arith, spared) in
    let revoked =
      find_mono (λ (c : PairingCode). c.user_id == user_id && not c.used) (stale user_id now) left
        (λ a h. ground arith) (find-delete_self (stale user_id now) db.pairing_codes) in
    rw taken (refl, refl, spared, revoked)
