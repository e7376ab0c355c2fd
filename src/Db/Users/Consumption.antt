-- ===== src/Db/Users/Consumption.antt =====
-- hub/db.py, "Users" and "Invites": what creating a user and consuming an invite promise.
use vortex_portal.Base.{ℕ, ◌+◌, ◌≡◌, ◌≢◌, Bool, false, none, some, [], ◌∷◌, arith, length-append}
use vortex_portal.Base.Text.{Text, text_eq_iff, text_eq_refl}
use vortex_portal.Base.Table.{
  find, matches-find, find-append_new, find-append_unseen, find-update_unseen, find-update_keeps,
}
use vortex_portal.Db.Schema.{Db, User, Invite, ok, integrity_error}
use vortex_portal.Db.Users.{
  named, create_user, get_user_by_username, user_count, unused, consume_invite, invite_is_valid,
}

-- An invite admits one registration: `consume_invite` answers yes exactly if the code is valid,
-- then the code is valid no more, and every other code is as valid as before.
pub consume_invite_once :
    (db db' : Db) (code other : Text) (user_id now : ℕ) (taken : Bool)
    → consume_invite db code user_id now ≡ ok (taken, db')
    → other ≢ code
    → (taken ≡ invite_is_valid db code)
      × (invite_is_valid db' code ≡ false)
      × (invite_is_valid db' other ≡ invite_is_valid db other)
unfolding consume_invite invite_is_valid
consume_invite_once db db' code other user_id now taken e d =
    let mark = λ (i : Invite). record i { used_by = some user_id; used_at = some now } in
    let gone =
      find-update_unseen (unused code) (unused code) mark db.invites (λ a h. h)
        (λ a h. ground arith) in
    let rest =
      find-update_keeps (unused other) (unused code) mark db.invites
        (λ a h. ground (arith, text_eq_iff a.code code, text_eq_iff a.code other))
        (λ a h. ground arith) in
    (
      ground (arith, matches-find (unused code) db.invites),
      ground (arith, gone),
      ground (arith, rest),
    )

-- A name is given once: a call that creates a user has found the name free; afterwards the name
-- shows that user, with the id returned and the hash and rights given, every other name shows whom
-- it showed before, there is one user more, and creating the name again raises.
pub create_user_lem :
    (db db' : Db) (username hash other again : Text) (is_admin admin' : Bool) (id now later : ℕ)
    → create_user db username hash is_admin now ≡ ok (id, db')
    → other ≢ username
    → (get_user_by_username db username ≡ none)
      × (get_user_by_username db' username
          ≡ some (record {
            id = id;
            username = username;
            password_hash = hash;
            is_admin = is_admin;
            created_at = now;
          }))
      × (get_user_by_username db' other ≡ get_user_by_username db other)
      × (user_count db' ≡ user_count db + 1)
      × (create_user db' username again admin' later ≡ integrity_error)
unfolding create_user get_user_by_username user_count
create_user_lem db db' username hash other again is_admin admin' id now later e d =
    let new : User = record {
      id = db.next_user;
      username = username;
      password_hash = hash;
      is_admin = is_admin;
      created_at = now;
    } in
    let absent : find (named username) db.users ≡ none = ground arith in
    let shown = find-append_new (named username) db.users new absent (text_eq_refl username) in
    let unseen =
      find-append_unseen (named other) db.users new (ground (arith, text_eq_iff username other)) in
    (
      absent,
      ground (arith, shown),
      ground (arith, unseen),
      ground (arith, length-append db.users (new ∷ [])),
      ground (arith, shown),
    )
