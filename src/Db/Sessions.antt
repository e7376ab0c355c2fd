-- ===== src/Db/Sessions.antt =====
-- hub/db.py, "Sessions". `hash_token` is SHA-256 in hexadecimal, a parameter; the token is what
-- `secrets.token_urlsafe` drew, and `ttl` what `session_ttl()` gives.
pub mod Lifetime
use vortex_portal.Base.{
  ℕ, ◌+◌, Bool, true, ◌&&◌, not, Option, none, some, List, [], ◌∷◌, ◌++◌, if◌then◌else◌, ltb,
  is_some,
}
use vortex_portal.Base.Text.{Text, text_eq}
use vortex_portal.Base.Table.{find, delete}
use vortex_portal.Db.Schema.{Db, Session, Result, ok, integrity_error, user_exists}

abbrev pub has_token : Text → Session → Bool
has_token hash s = text_eq s.token_hash hash

abbrev pub user_of : Option Session → Option ℕ
user_of none = none
user_of (some s) = some s.user_id

module _ (hash_token : Text → Text) where
  unfoldable pub create_session : Db → ℕ → Text → ℕ → ℕ → Result Db
  create_session db user_id token ttl now =
      if user_exists db user_id && not (is_some (find (has_token (hash_token token)) db.sessions))
      then (ok (record db {
        sessions =
            db.sessions
            ++ (record {
              token_hash = hash_token token;
              user_id = user_id;
              created_at = now;
              expires_at = now + ttl;
            })
              ∷ [];
      }))
      else integrity_error

  unfoldable pub lookup_session : Db → Text → ℕ → Option ℕ
  lookup_session db token now =
      user_of (find (λ s. has_token (hash_token token) s && ltb now s.expires_at) db.sessions)

  unfoldable pub delete_session : Db → Text → Db
  delete_session db token = record db {
    sessions = delete (has_token (hash_token token)) db.sessions;
  }
