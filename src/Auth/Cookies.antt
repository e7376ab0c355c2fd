-- ===== src/Auth/Cookies.antt =====
-- hub/auth.py: `login`, `logout` and who a request's cookie stands for. The parameter is the hash
-- of a token; the token is what `secrets` drew, and `ttl` what `session_ttl()` gives.
use vortex_portal.Base.{ℕ, Option, none, some, [], ◌∷◌, if◌then◌else◌}
use vortex_portal.Base.Text.{Text}
use vortex_portal.Db.Schema.{Db, User, Result}
use vortex_portal.Db.Users.{get_user_by_id}
use vortex_portal.Db.Sessions.{create_session, lookup_session, delete_session}

-- What `require_user` and `require_admin` give: the user, the redirection to /login, or a 403.
pub data Access : Type 0 where
  granted : User → Access
  to_login : Access
  forbidden : Access

module _ (hash_token : Text → Text) where
  unfoldable pub login : Db → ℕ → Text → ℕ → ℕ → Result Db
  login db user_id token ttl now = create_session hash_token db user_id token ttl now

  -- No cookie, or an empty one, deletes nothing.
  unfoldable pub logout : Db → Option Text → Db
  logout db none = db
  logout db (some []) = db
  logout db (some (c ∷ token)) = delete_session hash_token db (c ∷ token)

  abbrev user_of_session : Db → Option ℕ → Option User
  user_of_session db none = none
  user_of_session db (some user_id) = get_user_by_id db user_id

  unfoldable pub current_user_optional : Db → Option Text → ℕ → Option User
  current_user_optional db none now = none
  current_user_optional db (some []) now = none
  current_user_optional db (some (c ∷ token)) now =
      user_of_session db (lookup_session hash_token db (c ∷ token) now)

  abbrev pub admitted : Option User → Access
  admitted none = to_login
  admitted (some u) = granted u

  unfoldable pub require_user : Db → Option Text → ℕ → Access
  unfolding current_user_optional
  require_user db cookie now = admitted (current_user_optional db cookie now)

  abbrev pub admin_only : Access → Access
  admin_only (granted u) = if u.is_admin then granted u else forbidden
  admin_only to_login = to_login
  admin_only forbidden = forbidden

  unfoldable pub require_admin : Db → Option Text → ℕ → Access
  unfolding require_user
  require_admin db cookie now = admin_only (require_user db cookie now)
