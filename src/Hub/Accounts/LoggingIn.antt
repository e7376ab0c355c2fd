-- ===== src/Hub/Accounts/LoggingIn.antt =====
-- hub/app.py, `login_post`: what a login takes and gives.
use vortex_portal.Base.{
  ℕ, ◌+◌, ◌≡◌, ◌≢◌, refl, sym, ap, ◌∙◌, inl, inr, Bool, true, Option, none, some, if◌then◌else◌,
  ltb, arith, Bool-cases,
}
use vortex_portal.Base.Text.{Text, strip, text_eq_refl}
use vortex_portal.Db.Schema.{Db, User, Result, ok, integrity_error}
use vortex_portal.Db.Users.{get_user_by_username}
use vortex_portal.Db.Sessions.{create_session, lookup_session}
use vortex_portal.Db.Sessions.Lifetime.{lookup_session-created}
use vortex_portal.Auth.Cookies.{login}
use vortex_portal.Auth.RateLimit.{Limiter, rate_check, rate_clear}
use vortex_portal.Hub.Accounts.Registering.{error-not_signed}
use vortex_portal.Base.Dict.{get-remove}
use vortex_portal.Hub.Accounts.{
  Answer, signed_in, refused, Draw, with_session, verified, admit, login_post,
}

rate_check-clear :
    (second : ℕ) (ip : Text) (t : ℕ) (s : Limiter)
    → (rate_check second ip t (rate_clear second ip s)).0 ≡ 0
unfolding rate_check rate_clear
rate_check-clear second ip t s = rw (get-remove ip ip s.block_until, text_eq_refl ip) refl

triple-not_signed :
    (status : ℕ) (message : Text) (db db' : Db) (limiter limiter' : Limiter) (token : Text)
    → ◌≢◌ {A = Answer × Db × Limiter}
        (refused status message, db, limiter)
        (signed_in token, db', limiter')
triple-not_signed status message db db' limiter limiter' token = ground arith

module _ (hash_token : Text → Text) where
  -- The session behind the cookie: whose it is, and until when.
  with_session-opens :
      (db db' : Db) (id t : ℕ) (draw : Draw) (token : Text) (r : Result Db)
      → create_session hash_token db id draw.token draw.ttl draw.now ≡ r
      → with_session db draw.token r ≡ (signed_in token, db')
      → lookup_session hash_token db' token t
        ≡ (if ltb t (draw.now + draw.ttl) then some id else none)
  with_session-opens db db' id t draw token (ok made) c e =
      ground (arith, lookup_session-created hash_token db made id draw.ttl draw.now draw.token t c)
  with_session-opens db db' id t draw token integrity_error c e =
      elim (error-not_signed db db' token e) [ ]

module _ (hash_token : Text → Text) (verify_password : Text → Text → Bool) (second : ℕ) where
  -- What the cookie proves about the user whom the request named.
  abbrev pub Proven : Option User → Text → Draw → Db → Text → ℕ → Type 0
  Proven o password draw db token t =
      (u : User) × (o ≡ some u)
      × (verify_password password u.password_hash ≡ true)
      × (lookup_session hash_token db token t
          ≡ (if ltb t (draw.now + draw.ttl) then some u.id else none))

  admit-proves :
      (ip password token : Text) (draw : Draw) (mono later t : ℕ) (db db' : Db)
      (limiter limiter' : Limiter) (o : Option User)
      → admit hash_token verify_password second ip draw mono db limiter
          (verified hash_token verify_password second password o)
        ≡ (signed_in token, db', limiter')
      → Proven o password draw db' token t × ((rate_check second ip later limiter').0 ≡ 0)
  unfolding login
  admit-proves ip password token draw mono later t db db' limiter limiter' none e =
      elim (triple-not_signed _ _ db db' _ limiter' token e) [ ]
  admit-proves ip password token draw mono later t db db' limiter limiter' (some u) e =
      elim (Bool-cases (verify_password password u.password_hash)) [
        | inl v ↦
            let e' = rw v at e in
            (
              (
                u,
                refl,
                v,
                with_session-opens hash_token db db' u.id t draw token _ refl
                    (ap (λ (x : Answer × Db × Limiter). (x.0, x.1)) e'),
              ),
              sym (ap (λ (x : Answer × Db × Limiter). (rate_check second ip later x.2).0) e')
                  ∙ rate_check-clear second ip later limiter,
            )
        | inr v ↦ elim (triple-not_signed _ _ db db' _ limiter' token (rw v at e)) [ ]
      ]

  -- Nobody gets in without the password, or while the address is blocked: a login that sets a cookie
  -- named a user whose stored hash fits the password, came from an address that was not blocked, and
  -- gives a session of that user for exactly the time to live; afterwards the address is not blocked.
  pub login_post-proves :
      (ip username password token : Text) (draw : Draw) (mono later t : ℕ) (db db' : Db)
      (limiter limiter' : Limiter)
      → login_post hash_token verify_password second ip username password draw mono db limiter
        ≡ (signed_in token, db', limiter')
      → Proven (get_user_by_username db (strip username)) password draw db' token t
        × ((rate_check second ip mono limiter).0 ≡ 0)
        × ((rate_check second ip later limiter').0 ≡ 0)
  unfolding login_post
  login_post-proves ip username password token draw mono later t db db' limiter limiter' e =
      elim (Bool-cases (ltb 0 (rate_check second ip mono limiter).0)) [
        | inl b ↦ elim (triple-not_signed _ _ db db' _ limiter' token (rw b at e)) [ ]
        | inr b ↦
            let (proven, free) =
              admit-proves ip password token draw mono later t db db'
                (rate_check second ip mono limiter).1 limiter'
                (get_user_by_username db (strip username)) (rw b at e) in
            (proven, ground arith, free)
      ]
