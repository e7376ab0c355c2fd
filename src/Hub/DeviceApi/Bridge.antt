-- ===== src/Hub/DeviceApi/Bridge.antt =====
-- hub/app.py: a device's credentials stand for its owner, and for nobody once it is unpaired.
use vortex_portal.Base.{
  ℕ, suc, ◌+◌, inl, inr, ◌≡◌, ◌≤◌, refl, ap, sym, ◌∙◌, Bool, true, not, ◌||◌, ◌==◌, Option, none,
  some, List, [], ◌∷◌, ◌++◌, if◌then◌else◌, arith, ltb, subst, Bool-cases,
}
use vortex_portal.Base.Text.{Text, codes, strip, non_empty, text_eq}
use vortex_portal.Base.Json.{text, Fields, end, field, lookup}
use vortex_portal.Hub.Agents.{auth_fail, handshake}
use vortex_portal.Base.Table.{find, delete, matches, matches-delete-le, matches_zero}
use vortex_portal.Db.Schema.{Db, User, Device, Result, ok, integrity_error}
use vortex_portal.Db.Users.{get_user_by_id}
use vortex_portal.Db.Devices.{
  has_id, is_owned, get_device, get_device_for_user, delete_device, authenticate_device,
}
use vortex_portal.Db.Devices.Ownership.{delete_device_owned}
use vortex_portal.Db.Sessions.{create_session}
use vortex_portal.Db.Sessions.Lifetime.{lookup_session-created}
use vortex_portal.Auth.Cookies.{login, current_user_optional}
use vortex_portal.Router.Registry.{Registry, get_conn}
use vortex_portal.Hub.Devices.{Response, redirect, device_delete, after_delete}
use vortex_portal.Hub.DeviceApi.{
  invalid, answered, device_of, nodes_for, api_nodes, devices_for, api_account_devices, session_for,
  signed_in, api_device_session,
}

-- A deletion that finds a row leaves one row fewer of every wider kind.
matches-delete-fewer {ℓ} :
    {A : Type ℓ} (p q : A → Bool) (xs : List A) (a : A)
    → ((b : A) → q b ≡ true → p b ≡ true)
    → find q xs ≡ some a
    → suc (matches p (delete q xs)) ≤ matches p xs
unfolding find delete matches
matches-delete-fewer p q [] a wider e = ground arith
matches-delete-fewer p q (x ∷ xs) a wider e =
    ground (arith, wider x, matches-delete-le p q xs, matches-delete-fewer p q xs a wider)

create_session-users :
    (hash_token : Text → Text) (db db' : Db) (user_id : ℕ) (token : Text) (ttl now : ℕ)
    → create_session hash_token db user_id token ttl now ≡ ok db'
    → db'.users ≡ db.users
unfolding create_session
create_session-users hash_token db db' user_id token ttl now e = ground arith

users_only :
    (user_id : ℕ) (db db' : Db)
    → db'.users ≡ db.users
    → get_user_by_id db' user_id ≡ get_user_by_id db user_id
unfolding get_user_by_id
users_only user_id db db' e = ap (find (λ (u : User). u.id == user_id)) e

-- The first frame that an agent sends.
abbrev pub auth_frame : Text → Text → Fields
auth_frame given_id given_token =
    field (codes "type") (text (codes "auth"))
      (field (codes "device_id") (text given_id) (field (codes "token") (text given_token) end))

module _ (hash_token : Text → Text) where
  -- The handshake of /ws/agent that brings them ends in auth_fail.
  abbrev pub RefusesSocket : Text → Registry → Db → Text → Text → ℕ → Type 0
  RefusesSocket url registry db given_id given_token now =
      (sync_url sync_token : Text) (ref : ℕ)
      → (e : Text) × (handshake hash_token url sync_url sync_token ref now
            (auth_frame given_id given_token) (record { db = db; registry = registry })
          ≡ auth_fail e)

  unknown-RefusesSocket :
      (url : Text) (registry : Registry) (db : Db) (given_id given_token : Text) (now : ℕ)
      → get_device db (strip given_id) ≡ none
      → RefusesSocket url registry db given_id given_token now
  unfolding handshake authenticate_device lookup text_eq
  unknown-RefusesSocket url registry db given_id given_token now h sync_url sync_token ref =
      elim (Bool-cases (not (non_empty (strip given_id)) || not (non_empty given_token))) [
        | inl e ↦ (codes "missing fields", rw e refl)
        | inr e ↦ (codes "invalid credentials", rw e (rw h refl))
      ]

  -- What the calls answer to credentials that stand for no device.
  abbrev pub Refuses : Text → Registry → Db → Text → Text → Text → Text → ℕ → ℕ → Type 0
  Refuses url registry db given_id given_token drawn here ttl now =
      (api_nodes hash_token db given_id given_token here now ≡ invalid)
      × (api_account_devices hash_token url registry db given_id given_token now ≡ invalid)
      × (api_device_session hash_token db given_id given_token drawn ttl now ≡ (invalid, db))
      × RefusesSocket url registry db given_id given_token now

  unknown-Refuses :
      (url : Text) (registry : Registry) (db : Db) (given_id given_token drawn here : Text)
      (ttl now : ℕ)
      → get_device db (strip given_id) ≡ none
      → Refuses url registry db given_id given_token drawn here ttl now
  unfolding api_nodes api_account_devices api_device_session device_of authenticate_device
  unknown-Refuses url registry db given_id given_token drawn here ttl now h =
      let unknown : device_of hash_token db given_id given_token ≡ none = rw h (ground arith) in
      (
        ap (nodes_for hash_token _) unknown,
        ap (devices_for hash_token url registry db (strip given_id) now) unknown,
        ap (session_for hash_token db drawn ttl now) unknown,
        unknown-RefusesSocket url registry db given_id given_token now h,
      )

  deleted_unknown :
      (db : Db) (user_id : ℕ) (device_id : Text)
      → matches (has_id device_id) db.devices ≤ 1
      → (d : Device) → get_device_for_user db device_id user_id ≡ some d
      → get_device (delete_device db device_id user_id).1 device_id ≡ none
  unfolding get_device get_device_for_user delete_device
  deleted_unknown db user_id device_id one d h = matches_zero (has_id device_id) _ (
      omega (
        arith,
        one,
        matches-delete-fewer (has_id device_id) (is_owned device_id user_id) db.devices d
            (λ b k. ground arith) h,
      ))

  deleted :
      (db : Db) (registry : Registry) (user_id : ℕ) (device_id : Text) (ref : ℕ)
      → (delete_device db device_id user_id).0 ≡ true
      → get_conn device_id registry ≡ some ref
      → device_delete db registry user_id device_id ≡ (
        redirect (codes "/"),
        (delete_device db device_id user_id).1,
        record registry { closes = registry.closes ++ (ref, 4001, codes "unpaired") ∷ [] },
      )
  unfolding device_delete
  deleted db registry user_id device_id ref hit conn =
      ap (λ (b : Bool). after_delete registry device_id (b, (delete_device db device_id user_id).1))
        hit
      ∙ rw conn refl

  -- Unpairing takes the worth of a device's credentials: the owner's deletion answers with the way
  -- home and closes the socket that the device has here with code 4001, and afterwards the three
  -- calls of the device API and the handshake of /ws/agent refuse the device's id, whatever token
  -- comes with it, as long as no other device had the id.
  pub device_delete-Refuses :
      (db : Db) (registry : Registry) (user_id : ℕ) (d : Device) (given_id : Text)
      (given_token drawn here url : Text) (ref ttl now : ℕ)
      → matches (has_id (strip given_id)) db.devices ≤ 1
      → get_device_for_user db (strip given_id) user_id ≡ some d
      → get_conn (strip given_id) registry ≡ some ref
      → let after = device_delete db registry user_id (strip given_id) in
        (after.0 ≡ redirect (codes "/"))
        × (after.2.closes ≡ registry.closes ++ (ref, 4001, codes "unpaired") ∷ [])
        × Refuses url after.2 after.1 given_id given_token drawn here ttl now
  device_delete-Refuses db registry user_id d given_id given_token drawn here url ref ttl now one h
        conn =
      let device_id = strip given_id in
      let gone = (delete_device db device_id user_id).1 in
      let hit = delete_device_owned db device_id user_id d h in
      subst
        (λ (after : Response × Db × Registry).
          (after.0 ≡ redirect (codes "/"))
          × (after.2.closes ≡ registry.closes ++ (ref, 4001, codes "unpaired") ∷ [])
          × Refuses url after.2 after.1 given_id given_token drawn here ttl now)
        (sym (deleted db registry user_id device_id ref hit conn))
        (
          refl,
          refl,
          unknown-Refuses url _ gone given_id given_token drawn here ttl now
              (deleted_unknown db user_id device_id one d h),
        )

  signed_in-answered :
      (owner_id user_id : ℕ) (db db' : Db) (r : Result Db)
      → signed_in hash_token owner_id db r ≡ (answered user_id, db')
      → (owner_id ≡ user_id) × (r ≡ ok db')
  signed_in-answered owner_id user_id db db' (ok db1) e = ground arith
  signed_in-answered owner_id user_id db db' integrity_error e = absurd (ground arith)

  session_for-answered :
      (db db' : Db) (drawn : Text) (ttl now user_id : ℕ) (o : Option Device)
      → session_for hash_token db drawn ttl now o ≡ (answered user_id, db')
      → (d : Device) × (o ≡ some d)
        × (d.owner_id ≡ user_id)
        × (login hash_token db d.owner_id drawn ttl now ≡ ok db')
  session_for-answered db db' drawn ttl now user_id none e = absurd (ground arith)
  session_for-answered db db' drawn ttl now user_id (some d) e =
      let (owner, r) =
        signed_in-answered d.owner_id user_id db db' (login hash_token db d.owner_id drawn ttl now)
          e in
      (d, refl, owner, r)

  device_of-authenticated :
      (db : Db) (given_id given_token : Text) (d : Device)
      → device_of hash_token db given_id given_token ≡ some d
      → authenticate_device hash_token db (strip given_id) given_token ≡ some d
  unfolding device_of
  device_of-authenticated db given_id given_token d e = ground arith

  -- A device that signs in with its credentials is its owner: the session that it gets stands for
  -- the user who owns the device until `ttl` seconds have passed, and for nobody from then on.
  pub api_device_session-signs_in :
      (db db' : Db) (given_id given_token drawn : Text) (c ttl now later user_id : ℕ)
      → api_device_session hash_token db given_id given_token (c ∷ drawn) ttl now
        ≡ (answered user_id, db')
      → (d : Device) × (authenticate_device hash_token db (strip given_id) given_token ≡ some d)
        × (d.owner_id ≡ user_id)
        × (current_user_optional hash_token db' (some (c ∷ drawn)) later
            ≡ (if ltb later (now + ttl) then get_user_by_id db user_id else none))
  unfolding current_user_optional login device_of api_device_session
  api_device_session-signs_in db db' given_id given_token drawn c ttl now later user_id e =
      let (d, known, owner, login_ok) =
        session_for-answered db db' (c ∷ drawn) ttl now user_id
          (device_of hash_token db given_id given_token) e in
      let same_user : get_user_by_id db' d.owner_id ≡ get_user_by_id db user_id =
        users_only d.owner_id db db'
          (create_session-users hash_token db db' d.owner_id (c ∷ drawn) ttl now login_ok)
        ∙ ap (get_user_by_id db) owner in
      (
        d,
        device_of-authenticated db given_id given_token d known,
        owner,
        rw (lookup_session-created hash_token db db' d.owner_id ttl now (c ∷ drawn) later login_ok)
            (elim (Bool-cases (ltb later (now + ttl))) [
              | inl y ↦ rw y same_user
              | inr n ↦ rw n refl
            ]),
      )
