-- ===== src/Db/Sessions/Lifetime.antt =====
-- hub/db.py, "Sessions": one session through the calls that follow its creation.
use vortex_portal.Base.{
  ℕ, ◌+◌, ◌≤◌, ◌≡◌, ◌≢◌, refl, Bool, false, ◌&&◌, not, is_some, none, some, List, [], ◌∷◌, ◌++◌,
  arith, if◌then◌else◌, ltb, All, Bool-cases, inl, inr, ◌∙◌, ap,
}
use vortex_portal.Base.Text.{Text, text_eq_iff, text_eq_refl}
use vortex_portal.Base.Table.{
  find, matches, delete, find-append_new, find-append_unseen, find-delete_spared, find-delete_self,
  matches-append, matches-delete-le, matches_unseen, find_narrow, find_sole, find-delete_keeps,
  find_mono,
}
use vortex_portal.Db.Schema.{Db, Session, Result, ok, integrity_error, user_exists}
use vortex_portal.Db.Purge.{purge_expired}
use vortex_portal.Db.Sessions.{has_token, user_of, create_session, lookup_session, delete_session}

pub data SessionCall : Type 0 where
  creates : ℕ → Text → ℕ → ℕ → SessionCall
  deletes : Text → SessionCall
  purges : ℕ → SessionCall

module _ (hash_token : Text → Text) where
  abbrev after_create : Db → Result Db → Db
  after_create db (ok db') = db'
  after_create db integrity_error = db

  pub step : Db → SessionCall → Db
  step db (creates user_id token ttl now) =
      after_create db (create_session hash_token db user_id token ttl now)
  step db (deletes token) = delete_session hash_token db token
  step db (purges now) = purge_expired db now

  pub run : Db → List SessionCall → Db
  run db [] = db
  run db (c ∷ cs) = run (step db c) cs

  -- A call that is about another token, or the housekeeping before the end.
  abbrev pub IsForeign : Text → ℕ → SessionCall → Type 0
  IsForeign token end (creates user_id other ttl now) = hash_token other ≢ hash_token token
  IsForeign token end (deletes other) = hash_token other ≢ hash_token token
  IsForeign token end (purges now) = now ≤ end

  -- `s` is the one row of the token.
  abbrev Sole : Db → Text → Session → Type 0
  Sole db token s =
      (find (has_token (hash_token token)) db.sessions ≡ some s)
      × (matches (has_token (hash_token token)) db.sessions ≤ 1)

  -- A row of another token neither shows in the query nor counts.
  append-Sole :
      (db : Db) (token : Text) (s new : Session)
      → new.token_hash ≢ hash_token token
      → Sole db token s
      → Sole (record db { sessions = db.sessions ++ new ∷ [] }) token s
  unfolding matches
  append-Sole db token s new f k =
      let h = has_token (hash_token token) in
      let away : h new ≡ false = ground (arith, text_eq_iff new.token_hash (hash_token token)) in
      (
        find-append_unseen h db.sessions new away ∙ k.0,
        ground (arith, matches-append h db.sessions (new ∷ [])),
      )

  delete-Sole :
      (db : Db) (token : Text) (s : Session) (q : Session → Bool)
      → q s ≡ false
      → Sole db token s
      → Sole (record db { sessions = delete q db.sessions }) token s
  delete-Sole db token s q e k =
      let h = has_token (hash_token token) in
      (find-delete_spared h q db.sessions s k.0 e, omega (arith, matches-delete-le h q db.sessions))

  step-Sole :
      (db : Db) (token : Text) (s : Session) (c : SessionCall)
      → s.token_hash ≡ hash_token token
      → IsForeign token s.expires_at c
      → Sole db token s
      → Sole (step db c) token s
  unfolding step create_session delete_session purge_expired
  step-Sole db token s (creates u other ttl now) e f k =
      elim (Bool-cases
        (user_exists db u && not (is_some (find (has_token (hash_token other)) db.sessions)))) [
          | inl go ↦ rw go (append-Sole db token s _ f k)
          | inr stop ↦ rw stop k
        ]
  step-Sole db token s (deletes other) e f k =
      delete-Sole db token s (has_token (hash_token other))
        (ground (arith, text_eq_iff s.token_hash (hash_token other))) k
  step-Sole db token s (purges now) e f k =
      delete-Sole db token s (λ r. ltb r.expires_at now) (ground arith) k

  run-Sole :
      (cs : List SessionCall) (db : Db) (token : Text) (s : Session)
      → s.token_hash ≡ hash_token token
      → All (IsForeign token s.expires_at) cs
      → Sole db token s
      → Sole (run db cs) token s
  unfolding run
  run-Sole [] db token s e f k = k
  run-Sole (c ∷ cs) db token s e f k =
      run-Sole cs (step db c) token s e f.1 (step-Sole db token s c e f.0 k)

  lookup_session-Sole :
      (db : Db) (token : Text) (s : Session) (t : ℕ)
      → Sole db token s
      → lookup_session hash_token db token t ≡ (if ltb t s.expires_at then some s.user_id else none)
  unfolding lookup_session
  lookup_session-Sole db token s t k = elim (Bool-cases (ltb t s.expires_at)) [
    | inl e ↦ rw (
      e,
      find_narrow (has_token (hash_token token)) (λ r. ltb t r.expires_at) db.sessions s k.0 e,
    )
    | inr e ↦ rw (
      e,
      find_sole (has_token (hash_token token)) (λ r. ltb t r.expires_at) db.sessions s k.0 k.1 e,
    )
  ]

  create-Sole :
      (db db' : Db) (user_id ttl now : ℕ) (token : Text)
      → create_session hash_token db user_id token ttl now ≡ ok db'
      → Sole db' token (record {
        token_hash = hash_token token;
        user_id = user_id;
        created_at = now;
        expires_at = now + ttl;
      })
  unfolding create_session matches
  create-Sole db db' user_id ttl now token e =
      let h = has_token (hash_token token) in
      let new : Session = record {
        token_hash = hash_token token;
        user_id = user_id;
        created_at = now;
        expires_at = now + ttl;
      } in
      ground (
        arith,
        text_eq_refl (hash_token token),
        find-append_new h db.sessions new,
        matches-append h db.sessions (new ∷ []),
        matches_unseen h db.sessions,
      )

  -- A session that was created stands for its user until `ttl` seconds have passed, and for nobody
  -- from then on, through any calls that create or delete sessions of tokens with another hash and
  -- any housekeeping that comes no later than the end.
  pub session_lifetime :
      (db db' : Db) (user_id ttl now : ℕ) (token : Text) (cs : List SessionCall) (t : ℕ)
      → create_session hash_token db user_id token ttl now ≡ ok db'
      → All (IsForeign token (now + ttl)) cs
      → lookup_session hash_token (run db' cs) token t
        ≡ (if ltb t (now + ttl) then some user_id else none)
  session_lifetime db db' user_id ttl now token cs t e f =
      lookup_session-Sole (run db' cs) token _ t
        (run-Sole cs db' token _ refl f (create-Sole db db' user_id ttl now token e))

  lookup_session-delete :
      (db : Db) (token : Text) (t : ℕ)
      → lookup_session hash_token (delete_session hash_token db token) token t ≡ none
  unfolding lookup_session delete_session
  lookup_session-delete db token t = ap user_of (
      find_mono (λ s. has_token (hash_token token) s && ltb t s.expires_at)
        (has_token (hash_token token)) (delete (has_token (hash_token token)) db.sessions)
        (λ a k. ground arith) (find-delete_self (has_token (hash_token token)) db.sessions))

  -- Logging out ends the session at once, and no session of a token with another hash.
  pub delete_session_lem :
      (db : Db) (token other : Text) (t : ℕ)
      → hash_token other ≢ hash_token token
      → (lookup_session hash_token (delete_session hash_token db token) token t ≡ none)
        × (lookup_session hash_token (delete_session hash_token db token) other t
            ≡ lookup_session hash_token db other t)
  unfolding lookup_session delete_session
  delete_session_lem db token other t f = (
    lookup_session-delete db token t,
    ap user_of (
        find-delete_keeps _ (has_token (hash_token token)) db.sessions (λ a k. ground (
          arith,
          text_eq_iff a.token_hash (hash_token other),
          text_eq_iff a.token_hash (hash_token token),
        ))),
  )

  -- With no call in between.
  pub lookup_session-created :
      (db db' : Db) (user_id ttl now : ℕ) (token : Text) (t : ℕ)
      → create_session hash_token db user_id token ttl now ≡ ok db'
      → lookup_session hash_token db' token t ≡ (if ltb t (now + ttl) then some user_id else none)
  unfolding run
  lookup_session-created db db' user_id ttl now token t e =
      session_lifetime db db' user_id ttl now token [] t e tt
