-- ===== src/Db/Users.antt =====
-- hub/db.py, "Users" and "Invites". What `secrets` and `hash_password` give are arguments.
pub mod Consumption
use vortex_portal.Base.{
  ℕ, suc, ◌+◌, Bool, true, false, ◌&&◌, not, Option, none, some, List, [], ◌∷◌, ◌++◌, if◌then◌else◌,
  ltb, ◌==◌, is_some, length,
}
use vortex_portal.Base.Text.{Text, text_eq}
use vortex_portal.Base.Table.{find, select, update, matches}
use vortex_portal.Base.Sort.{order_by}
use vortex_portal.Db.Schema.{Db, User, Invite, Result, ok, integrity_error, user_exists}

-- WHERE username = ?
abbrev pub named : Text → User → Bool
named username u = text_eq u.username username

-- `username` is UNIQUE. Returns the new id.
unfoldable pub create_user : Db → Text → Text → Bool → ℕ → Result (ℕ × Db)
create_user db username password_hash is_admin now =
    if is_some (find (named username) db.users)
    then integrity_error
    else (ok (
      db.next_user,
      record db {
        users =
            db.users
            ++ (record {
              id = db.next_user;
              username = username;
              password_hash = password_hash;
              is_admin = is_admin;
              created_at = now;
            })
              ∷ [];
        next_user = suc db.next_user;
      },
    ))

unfoldable pub get_user_by_username : Db → Text → Option User
get_user_by_username db username = find (named username) db.users

unfoldable pub get_user_by_id : Db → ℕ → Option User
get_user_by_id db user_id = find (λ (u : User). u.id == user_id) db.users

unfoldable pub user_count : Db → ℕ
user_count db = length db.users

-- `code` is a primary key, `created_by` refers to a user.
unfoldable pub create_invite : Db → ℕ → Text → ℕ → Result Db
create_invite db created_by code now =
    if user_exists db created_by
      && not (is_some (find (λ (i : Invite). text_eq i.code code) db.invites))
    then (ok (record db {
      invites =
          db.invites
          ++ (record {
            code = code;
            created_by = created_by;
            created_at = now;
            used_by = none;
            used_at = none;
          })
            ∷ [];
    }))
    else integrity_error

unfoldable pub list_invites : Db → ℕ → List Invite
list_invites db created_by =
    order_by (λ (a b : Invite). ltb b.created_at a.created_at)
      (select (λ (i : Invite). i.created_by == created_by) db.invites)

-- WHERE code = ? AND used_by IS NULL
abbrev pub unused : Text → Invite → Bool
unused code i = text_eq i.code code && not (is_some i.used_by)

-- The UPDATE checks that `used_by` refers to a user if it changes a row.
unfoldable pub consume_invite : Db → Text → ℕ → ℕ → Result (Bool × Db)
consume_invite db code user_id now =
    if ltb 0 (matches (unused code) db.invites) && not (user_exists db user_id)
    then integrity_error
    else (ok (
      ltb 0 (matches (unused code) db.invites),
      record db {
        invites =
            update (unused code) (λ i. record i { used_by = some user_id; used_at = some now })
              db.invites;
      },
    ))

unfoldable pub invite_is_valid : Db → Text → Bool
invite_is_valid db code = is_some (find (unused code) db.invites)
