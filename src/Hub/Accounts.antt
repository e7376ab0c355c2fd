-- ===== src/Hub/Accounts.antt =====
-- hub/app.py: logging in and registering. What `hash_password` makes of a password, with the salt
-- drawn, is an argument; `verify_password` is a parameter, as is the hash of tokens.
pub mod Registering
pub mod LoggingIn
use vortex_portal.Base.{
  ℕ, Bool, true, false, ◌&&◌, ◌||◌, not, Option, none, some, List, [], ◌∷◌, if◌then◌else◌, ltb,
  ◌==◌, is_some, length,
}
use vortex_portal.Base.Text.{Text, codes, text_eq, strip, non_empty}
use vortex_portal.Db.Schema.{Db, User, Result, ok, integrity_error}
use vortex_portal.Db.Users.{
  create_user, get_user_by_username, user_count, consume_invite, invite_is_valid,
}
use vortex_portal.Auth.Cookies.{login}
use vortex_portal.Auth.RateLimit.{Limiter, rate_check, rate_record_fail, rate_clear}

-- An answer: a cookie is set, a status with its message, or the 500 of an exception.
pub data Answer : Type 0 where
  signed_in : Text → Answer
  refused : ℕ → Text → Answer
  server_error : Answer

-- The invite that another registration redeems, by its user and clock.
pub record Rival : Type 0 where
  pub code : Text
  pub user_id : ℕ
  pub now : ℕ

-- What a request draws: the password's hash, the session token, its time to live, the clock; and
-- the registration, if any, that redeems an invite after this one has created its user and before
-- it redeems its own, since the statements are no transaction.
pub record Draw : Type 0 where
  pub password_hash : Text
  pub token : Text
  pub ttl : ℕ
  pub now : ℕ
  pub rival : Option Rival

-- What `registration_mode()` gives: "open", "closed", or "invite" for every other setting.
pub data Mode : Type 0 where
  open_mode : Mode
  invite_mode : Mode
  closed_mode : Mode

-- The form of /register.
pub record Form : Type 0 where
  pub invite : Text
  pub username : Text
  pub password : Text
  pub password2 : Text

abbrev pub is_closed : Mode → Bool
is_closed closed_mode = true
is_closed open_mode = false
is_closed invite_mode = false

-- The first user is admitted in every mode.
unfoldable pub mode_of : Db → Mode → Mode
mode_of db mode = if user_count db == 0 then invite_mode else mode

-- name.replace("_", "").replace("-", "").isalnum(), from the test of one character
unfoldable pub all_alnum : (ℕ → Bool) → Text → Bool
all_alnum alnum [] = true
all_alnum alnum (c ∷ s) = ((c == b'_') || (c == b'-') || alnum c) && all_alnum alnum s

unfoldable pub some_alnum : (ℕ → Bool) → Text → Bool
some_alnum alnum [] = false
some_alnum alnum (c ∷ s) = (not (c == b'_') && not (c == b'-')) || some_alnum alnum s

unfoldable pub is_name : (ℕ → Bool) → Text → Bool
unfolding all_alnum some_alnum
is_name alnum s = all_alnum alnum s && some_alnum alnum s

abbrev pub after_rival : Db → Result (Bool × Db) → Db
after_rival db (ok r) = r.1
after_rival db integrity_error = db

abbrev pub meanwhile : Option Rival → Db → Db
meanwhile none db = db
meanwhile (some r) db = after_rival db (consume_invite db r.code r.user_id r.now)

abbrev pub with_session : Db → Text → Result Db → Answer × Db
with_session db token (ok db') = (signed_in token, db')
with_session db token integrity_error = (server_error, db)

module _ (hash_token : Text → Text) where
  abbrev pub sign_in : Draw → Result (ℕ × Db) → Db → Answer × Db
  sign_in draw (ok (user_id, db')) db =
      with_session db' draw.token (login hash_token db' user_id draw.token draw.ttl draw.now)
  sign_in draw integrity_error db = (server_error, db)

  -- `consume_invite` after `create_user`; the user stays if the invite is gone.
  abbrev pub after_invite : Draw → ℕ → Db → Result (Bool × Db) → Answer × Db
  after_invite draw user_id db (ok (true, db')) = sign_in draw (ok (user_id, db')) db
  after_invite draw user_id db (ok (false, db')) =
      (refused 400 (codes "Invite was used by another registration"), db')
  after_invite draw user_id db integrity_error = (server_error, db)

  abbrev pub invited : Draw → Text → Result (ℕ × Db) → Db → Answer × Db
  invited draw invite (ok (user_id, db')) db =
      let between = meanwhile draw.rival db' in
      after_invite draw user_id between (consume_invite between invite user_id draw.now)
  invited draw invite integrity_error db = (server_error, db)

  abbrev pub by_invite : Db → Text → Draw → Result (ℕ × Db) → Answer × Db
  by_invite db invite draw member =
      if invite_is_valid db invite
      then invited draw invite member db
      else (refused 400 (codes "Invalid or already-used invite code"), db)

  abbrev pub as_member : Db → Mode → Text → Draw → Result (ℕ × Db) → Answer × Db
  as_member db open_mode invite draw member = sign_in draw member db
  as_member db invite_mode invite draw member = by_invite db invite draw member
  as_member db closed_mode invite draw member = by_invite db invite draw member

  -- The end of both handlers: which user is created, and what it costs.
  unfoldable pub enter : Db → Mode → Text → Text → Draw → Answer × Db
  enter db mode invite username draw =
      if user_count db == 0
      then sign_in draw (create_user db username draw.password_hash true draw.now) db
      else as_member db mode invite draw (create_user db username draw.password_hash false draw.now)

abbrev pub bad_name : Text
bad_name = codes "Username may only contain letters, numbers, _ and -"

module _ (hash_token : Text → Text) (alnum : ℕ → Bool) where
  unfoldable pub register_post : Db → Mode → Form → Draw → Answer × Db
  unfolding mode_of is_name enter
  register_post db mode form draw =
      let invite = strip form.invite in
      let username = strip form.username in
      let mode' = mode_of db mode in
      if is_closed mode'
      then (refused 403 (codes "closed"), db)
      else if not (non_empty username) || not (non_empty form.password)
      then (refused 400 (codes "All fields required"), db)
      else if not (text_eq form.password form.password2)
      then (refused 400 (codes "Passwords do not match"), db)
      else if ltb (length form.password) 8
      then (refused 400 (codes "Password must be at least 8 characters"), db)
      else if not (is_name alnum username)
      then (refused 400 bad_name, db)
      else if is_some (get_user_by_username db username)
      then (refused 400 (codes "Username already taken"), db)
      else enter hash_token db mode' invite username draw

  -- The three texts are what `str` makes of the fields of the body.
  unfoldable pub api_session_register : Db → Mode → Text → Text → Text → Draw → Answer × Db
  unfolding mode_of is_name enter
  api_session_register db mode invite' username' password draw =
      let invite = strip invite' in
      let username = strip username' in
      let mode' = mode_of db mode in
      if is_closed mode'
      then (refused 403 (codes "Registration is closed on this hub."), db)
      else if not (non_empty username) || not (non_empty password)
      then (refused 400 (codes "All fields required"), db)
      else if ltb (length password) 8
      then (refused 400 (codes "Password must be at least 8 characters"), db)
      else if not (is_name alnum username)
      then (refused 400 bad_name, db)
      else if is_some (get_user_by_username db username)
      then (refused 400 (codes "Username already taken"), db)
      else enter hash_token db mode' invite username draw

-- The database and the limiter of one process. `mono` is what `monotonic` gives, once for the whole
-- request, with `second` ticks to the second.
module _ (hash_token : Text → Text) (verify_password : Text → Text → Bool) (second : ℕ) where
  abbrev pub verified : Text → Option User → Option User
  verified password none = none
  verified password (some u) = if verify_password password u.password_hash then some u else none

  abbrev pub wrong : Answer
  wrong = refused 401 (codes "Invalid credentials")

  abbrev pub admit : Text → Draw → ℕ → Db → Limiter → Option User → Answer × Db × Limiter
  admit ip draw mono db limiter none = (wrong, db, rate_record_fail second ip mono limiter)
  admit ip draw mono db limiter (some u) =
      let (answer, db') =
        with_session db draw.token (login hash_token db u.id draw.token draw.ttl draw.now) in
      (answer, db', rate_clear second ip limiter)

  abbrev pub gate : Text → Text → Text → Draw → ℕ → Db → ℕ × Limiter → Answer × Db × Limiter
  gate ip username password draw mono db (left, limiter) =
      if ltb 0 left
      then (refused 429 (codes "Too many failed attempts"), db, limiter)
      else admit ip draw mono db limiter
          (verified password (get_user_by_username db (strip username)))

  unfoldable pub login_post : Text → Text → Text → Draw → ℕ → Db → Limiter → Answer × Db × Limiter
  login_post ip username password draw mono db limiter =
      gate ip username password draw mono db (rate_check second ip mono limiter)
