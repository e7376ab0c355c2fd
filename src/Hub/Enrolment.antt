-- ===== src/Hub/Enrolment.antt =====
-- hub/app.py: how a device gets its credentials. The id is what `uuid4` drew, the token what
-- `secrets` drew; the texts of a body are what `str` or `.get` make of its fields.
pub mod Credentials
use vortex_portal.Base.{
  ℕ, Bool, true, false, not, Option, none, some, List, [], ◌∷◌, ◌++◌, if◌then◌else◌, take, map,
}
use vortex_portal.Base.Text.{
  Text, codes, text_eq, strip, rstrip_slash, non_empty, or_none, or_empty, or_else, contains,
}
use vortex_portal.Db.Schema.{Db, NodeEndpoint, Result, ok, integrity_error}
use vortex_portal.Db.Pairing.{create_pairing_code, consume_pairing_code, Paired}
use vortex_portal.Db.Devices.{create_device}
use vortex_portal.Db.Tokens.{account_token_user}
use vortex_portal.Db.Nodes.{list_node_endpoints}

-- The answer: the credentials with the node list, a status, or the 500 of an exception.
pub data Enrolled : Type 0 where
  enrolled : Text → Text → Text → List Text → Enrolled
  denied : ℕ → Enrolled
  failed : Enrolled

abbrev pub unnamed : Text
unnamed = codes "Unnamed Device"

-- (name or "").strip()[:80]
unfoldable pub clean_name : Text → Text
clean_name name = take 80 (strip name)

-- list.remove, which drops the first occurrence
unfoldable pub drop_first : Text → List Text → List Text
drop_first t [] = []
drop_first t (u ∷ us) = let rest = drop_first t us in if text_eq t u then us else u ∷ rest

-- `here` is the URL by which the request reached this node.
unfoldable pub live_node_urls : Db → Text → ℕ → List Text
unfolding drop_first
live_node_urls db here' now =
    let urls = map (λ (r : NodeEndpoint). r.url) (list_node_endpoints db 180 now) in
    let here = rstrip_slash here' in
    if not (non_empty here)
    then urls
    else if contains here urls
    then here ∷ drop_first here urls
    else here ∷ urls

-- `/pair`: the page shows the code; none is the 500 of the exception.
unfoldable pub pair_post : Db → ℕ → Text → ℕ → ℕ → Option Text × Db
unfolding clean_name
pair_post db user_id device_name draw now =
    create_pairing_code db user_id (or_none (clean_name device_name)) draw now

module _ (hash_token : Text → Text) where
  abbrev pub answer_with : Text → Text → Text → List Text → Db → Result Db → Enrolled × Db
  answer_with device_id token name nodes db (ok db') = (enrolled device_id token name nodes, db')
  answer_with device_id token name nodes db integrity_error = (failed, db)

  abbrev pub enrol : Db → ℕ → Text → Text → Text → List Text → ℕ → Enrolled × Db
  enrol db user_id device_id token name nodes now =
      answer_with device_id token name nodes db
        (create_device hash_token db device_id user_id name token none now)

  abbrev pub pair_device : Text → Text → Text → ℕ → Option Paired × Db → Enrolled × Db
  pair_device device_name device_id token now (none, db) = (denied 403, db)
  pair_device device_name device_id token now (some (user_id, noted), db) =
      enrol db user_id device_id token
        (or_else (clean_name device_name) (or_else (or_empty noted) unnamed)) [] now

  -- The answer of `/api/pair` has no node list.
  unfoldable pub api_pair : Db → Text → Text → Text → Text → ℕ → Enrolled × Db
  unfolding clean_name
  api_pair db code' device_name device_id token now =
      let code = strip code' in
      if not (non_empty code)
      then (denied 400, db)
      else pair_device device_name device_id token now (consume_pairing_code db code now)

  abbrev pub enrol_by_token : Text → Text → Text → Text → ℕ → Option ℕ × Db → Enrolled × Db
  enrol_by_token device_name device_id token here now (none, db) = (denied 403, db)
  enrol_by_token device_name device_id token here now (some user_id, db) =
      enrol db user_id device_id token (or_else (clean_name device_name) unnamed)
        (live_node_urls db here now) now

  unfoldable pub api_enroll : Db → Text → Text → Text → Text → Text → ℕ → Enrolled × Db
  unfolding live_node_urls clean_name
  api_enroll db account_token device_name device_id token here now =
      enrol_by_token device_name device_id token here now
        (account_token_user hash_token db (strip account_token) now)

  unfoldable pub api_session_enroll : Db → ℕ → Text → Text → Text → Text → ℕ → Enrolled × Db
  unfolding live_node_urls clean_name
  api_session_enroll db user_id device_name device_id token here now =
      enrol db user_id device_id token (or_else (clean_name device_name) unnamed)
        (live_node_urls db here now) now
