-- ===== src/Hub/Accounts/Registering.antt =====
-- hub/app.py, `register_post` and `api_session_register`: what a registration costs and gives.
use vortex_portal.Base.{
  ℕ, ◌≤◌, ◌≡◌, ◌≢◌, ◌⊎◌, refl, ◌∙◌, inl, inr, Bool, Option, true, false, none, some, ◌==◌, length,
  arith, Bool-cases,
}
use vortex_portal.Base.Text.{Text, codes, text_eq_iff, text_eq_refl, strip}
use vortex_portal.Base.Table.{find, find-append_new, find-update_unseen, matches-find}
use vortex_portal.Db.Schema.{Db, User, Invite, Result, ok, integrity_error}
use vortex_portal.Db.Users.{
  named, create_user, get_user_by_username, user_count, unused, consume_invite, invite_is_valid,
}
use vortex_portal.Db.Sessions.{create_session}
use vortex_portal.Auth.Cookies.{login}
use vortex_portal.Hub.Accounts.{
  Answer, signed_in, refused, server_error, Draw, Mode, open_mode, invite_mode, closed_mode, Form,
  Rival, after_rival, meanwhile, enter, with_session, sign_in, after_invite, invited, by_invite,
  as_member, mode_of, register_post,
}

-- Creating a user leaves the invites as they are.
create_user-invites :
    (db db' : Db) (username hash code : Text) (is_admin : Bool) (id now : ℕ)
    → create_user db username hash is_admin now ≡ ok (id, db')
    → invite_is_valid db' code ≡ invite_is_valid db code
unfolding create_user invite_is_valid
create_user-invites db db' username hash code is_admin id now e = ground arith

consume_invite-taken :
    (db db' : Db) (code : Text) (user_id now : ℕ) (taken : Bool)
    → consume_invite db code user_id now ≡ ok (taken, db')
    → taken ≡ invite_is_valid db code
unfolding consume_invite invite_is_valid
consume_invite-taken db db' code user_id now taken e =
    ground (arith, matches-find (unused code) db.invites)

abbrev pub is_refused : Answer × Db → Bool
is_refused (signed_in token, db) = false
is_refused (refused status message, db) = true
is_refused (server_error, db) = false

pub error-not_signed :
    (db db' : Db) (token : Text) → ◌≢◌ {A = Answer × Db} (server_error, db) (signed_in token, db')
error-not_signed db db' token = ground arith

pub refused-not_signed :
    (status : ℕ) (message : Text) (db db' : Db) (token : Text)
    → ◌≢◌ {A = Answer × Db} (refused status message, db) (signed_in token, db')
refused-not_signed status message db db' token = ground arith

consume_invite-spends :
    (db db' : Db) (code : Text) (user_id now : ℕ) (taken : Bool)
    → consume_invite db code user_id now ≡ ok (taken, db')
    → (db'.users ≡ db.users) × (invite_is_valid db' code ≡ false)
unfolding consume_invite invite_is_valid
consume_invite-spends db db' code user_id now taken e =
    let mark = λ (i : Invite). record i { used_by = some user_id; used_at = some now } in
    let gone =
      find-update_unseen (unused code) (unused code) mark db.invites (λ a h. h)
        (λ a h. ground arith) in
    (ground arith, ground (arith, gone))

-- Another registration in between creates no user of its own here.
meanwhile-users : (db : Db) (o : Option Rival) → (meanwhile o db).users ≡ db.users
meanwhile-users db none = refl
meanwhile-users db (some r) = redeemed (consume_invite db r.code r.user_id r.now) refl
  where
    redeemed :
        (q : Result (Bool × Db))
        → consume_invite db r.code r.user_id r.now ≡ q
        → (after_rival db q).users ≡ db.users
    redeemed (ok (b, db')) e = (consume_invite-spends db db' r.code r.user_id r.now b e).0
    redeemed integrity_error e = refl

valid-invites :
    (db db' : Db) (code : Text)
    → db.invites ≡ db'.invites
    → invite_is_valid db code ≡ invite_is_valid db' code
unfolding invite_is_valid
valid-invites db db' code e = rw e refl

-- What a registration that signs in has done, for the user it shows and the invites it leaves.
abbrev pub member_of : Db → Text → Draw → User
member_of db username draw = record {
  id = db.next_user;
  username = username;
  password_hash = draw.password_hash;
  is_admin = user_count db == 0;
  created_at = draw.now;
}

-- What admits a user: being the first, an open hub, or an invite that was valid and is no more.
abbrev pub Admission : Db → Mode → Text → Db → Type 0
Admission db mode invite db' =
    (mode ≡ open_mode) ⊎ ((invite_is_valid db invite ≡ true) × (invite_is_valid db' invite ≡ false))

module _ (hash_token : Text → Text) where
  with_session-tables :
      (db db' : Db) (id : ℕ) (token token' : Text) (ttl now : ℕ)
      → with_session db token (login hash_token db id token ttl now) ≡ (signed_in token', db')
      → (db'.users ≡ db.users) × (db'.invites ≡ db.invites) × (token' ≡ token)
  unfolding login create_session
  with_session-tables db db' id token token' ttl now e = ground arith

  sign_in-shows :
      (db db1 db' : Db) (draw : Draw) (username token hash : Text) (admin : Bool) (id : ℕ)
      → create_user db username hash admin draw.now ≡ ok (id, db1)
      → db'.users ≡ db1.users
      → get_user_by_username db' username
        ≡ some (record {
          id = db.next_user;
          username = username;
          password_hash = hash;
          is_admin = admin;
          created_at = draw.now;
        })
  unfolding create_user get_user_by_username
  sign_in-shows db db1 db' draw username token hash admin id e u =
      let new : User = record {
        id = db.next_user;
        username = username;
        password_hash = hash;
        is_admin = admin;
        created_at = draw.now;
      } in
      let absent : find (named username) db.users ≡ none = ground arith in
      ground (arith, find-append_new (named username) db.users new absent (text_eq_refl username))

  -- A refusal whose registration has lost its invite: the answer says so, and its user is there.
  abbrev pub HasLost : Db → Text → Draw → Answer × Db → Type 0
  HasLost db username draw r =
      (r.0 ≡ refused 400 (codes "Invite was used by another registration"))
      × (user_count db ≢ 0)
      × (get_user_by_username r.1 username ≡ some (member_of db username draw))

  -- How a registration ends that is not admitted.
  abbrev pub Ends : Db → Text → Draw → Answer × Db → Type 0
  Ends db username draw r = (is_refused r ≡ false) ⊎ ((r.1 ≡ db) ⊎ HasLost db username draw r)

  sign_in-session :
      (db db' : Db) (draw : Draw) (token : Text) (r : Result (ℕ × Db))
      → sign_in hash_token draw r db ≡ (signed_in token, db')
      → (id : ℕ) × (db1 : Db) × (r ≡ ok (id, db1))
        × (db'.users ≡ db1.users)
        × (db'.invites ≡ db1.invites)
  sign_in-session db db' draw token (ok (id, db1)) e =
      let (u, i, _) = with_session-tables db1 db' id draw.token token draw.ttl draw.now e in
      (id, db1, refl, u, i)
  sign_in-session db db' draw token integrity_error e = elim (error-not_signed db db' token e) [ ]

  after_invite-shows :
      (db db' : Db) (draw : Draw) (token invite : Text) (id : ℕ) (r : Result (Bool × Db))
      → consume_invite db invite id draw.now ≡ r
      → after_invite hash_token draw id db r ≡ (signed_in token, db')
      → (db'.users ≡ db.users) × (invite_is_valid db' invite ≡ false)
  after_invite-shows db db' draw token invite id (ok (true, db2)) e s =
      let (u, i, _) = with_session-tables db2 db' id draw.token token draw.ttl draw.now s in
      let (users, spent) = consume_invite-spends db db2 invite id draw.now true e in
      (u ∙ users, valid-invites db' db2 invite i ∙ spent)
  after_invite-shows db db' draw token invite id (ok (false, db2)) e s =
      elim (refused-not_signed _ _ db2 db' token s) [ ]
  after_invite-shows db db' draw token invite id integrity_error e s =
      elim (error-not_signed db db' token s) [ ]

  invited-shows :
      (db db' : Db) (draw : Draw) (token invite username hash : Text) (r : Result (ℕ × Db))
      → create_user db username hash false draw.now ≡ r
      → invited hash_token draw invite r db ≡ (signed_in token, db')
      → ((id : ℕ) × (db1 : Db) × (r ≡ ok (id, db1)) × (db'.users ≡ db1.users))
        × (invite_is_valid db' invite ≡ false)
  invited-shows db db' draw token invite username hash (ok (id, db1)) e s =
      let (u, v) =
        after_invite-shows (meanwhile draw.rival db1) db' draw token invite id _ refl s in
      ((id, db1, refl, u ∙ meanwhile-users db1 draw.rival), v)
  invited-shows db db' draw token invite username hash integrity_error e s =
      elim (error-not_signed db db' token s) [ ]

  by_invite-shows :
      (db db' : Db) (draw : Draw) (token invite username hash : Text) (r : Result (ℕ × Db))
      → create_user db username hash false draw.now ≡ r
      → by_invite hash_token db invite draw r ≡ (signed_in token, db')
      → ((id : ℕ) × (db1 : Db) × (r ≡ ok (id, db1)) × (db'.users ≡ db1.users))
        × (invite_is_valid db invite ≡ true)
        × (invite_is_valid db' invite ≡ false)
  by_invite-shows db db' draw token invite username hash r e s =
      elim (Bool-cases (invite_is_valid db invite)) [
        | inl v ↦
            let (made, spent) =
              invited-shows db db' draw token invite username hash r e (rw v at s) in
            (made, v, spent)
        | inr v ↦ elim (refused-not_signed _ _ db db' token (rw v at s)) [ ]
      ]

  as_member-shows :
      (db db' : Db) (draw : Draw) (token invite username hash : Text) (mode : Mode)
      → as_member hash_token db mode invite draw (create_user db username hash false draw.now)
        ≡ (signed_in token, db')
      → ((id : ℕ) × (db1 : Db) × (create_user db username hash false draw.now ≡ ok (id, db1))
          × (db'.users ≡ db1.users))
        × Admission db mode invite db'
  as_member-shows db db' draw token invite username hash open_mode s =
      let (id, db1, e, u, _) = sign_in-session db db' draw token _ s in ((id, db1, e, u), inl refl)
  as_member-shows db db' draw token invite username hash invite_mode s =
      let (made, valid, spent) = by_invite-shows db db' draw token invite username hash _ refl s in
      (made, inr (valid, spent))
  as_member-shows db db' draw token invite username hash closed_mode s =
      let (made, valid, spent) = by_invite-shows db db' draw token invite username hash _ refl s in
      (made, inr (valid, spent))

  enter-admits :
      (db db' : Db) (mode : Mode) (invite username token : Text) (draw : Draw)
      → enter hash_token db mode invite username draw ≡ (signed_in token, db')
      → (get_user_by_username db' username ≡ some (member_of db username draw))
        × ((user_count db ≡ 0) ⊎ Admission db mode invite db')
  unfolding enter
  enter-admits db db' mode invite username token draw s = elim (Bool-cases (user_count db == 0)) [
    | inl z ↦
        let (id, db1, e, u, _) = sign_in-session db db' draw token _ (rw z at s) in
        (
          sign_in-shows db db1 db' draw username token draw.password_hash true id e u ∙ rw z refl,
          inl (ground arith),
        )
    | inr z ↦
        let ((id, db1, e, u), a) =
          as_member-shows db db' draw token invite username draw.password_hash mode (rw z at s) in
        (
          sign_in-shows db db1 db' draw username token draw.password_hash false id e u ∙ rw z refl,
          inr a,
        )
  ]

  -- A registration that signs in has created exactly the user of the name, an administrator if and
  -- only if the table was empty; past the first user the hub was open, or the registration has
  -- spent an invite that was valid and is valid no more. The password met its repetition and has
  -- eight characters at least.
  pub register_post-admits :
      (alnum : ℕ → Bool) (db db' : Db) (mode : Mode) (form : Form) (draw : Draw) (token : Text)
      → register_post hash_token alnum db mode form draw ≡ (signed_in token, db')
      → (get_user_by_username db' (strip form.username)
          ≡ some (member_of db (strip form.username) draw))
        × ((user_count db ≡ 0) ⊎ Admission db (mode_of db mode) (strip form.invite) db')
        × (form.password ≡ form.password2)
        × (8 ≤ length form.password)
  unfolding register_post
  register_post-admits alnum db db' mode form draw token s =
      let entered : enter hash_token db (mode_of db mode) (strip form.invite) (strip form.username)
            draw
          ≡ (signed_in token, db') =
        ground arith in
      let (shown, admitted) =
        enter-admits db db' (mode_of db mode) (strip form.invite) (strip form.username) token draw
          entered in
      (shown, admitted, ground (arith, text_eq_iff form.password form.password2), ground arith)
