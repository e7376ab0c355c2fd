-- ===== src/Hub/DeviceApi.antt =====
-- hub/app.py: the calls that a device makes with its own credentials, and the account's tokens.
-- `given_id` and `given_token` are the header's text, or that of the query; missing ones are empty.
pub mod Bridge
use vortex_portal.Base.{
  ℕ, Bool, true, false, Option, none, some, List, [], ◌∷◌, ◌++◌, if◌then◌else◌, take,
}
use vortex_portal.Base.Text.{Text, codes, text_eq, contains, non_empty, strip, or_none}
use vortex_portal.Base.Json.{
  Json, null, bool, num, text, arr, obj, Items, nil, cons, Fields, end, field,
}
use vortex_portal.Base.Dict.{Dict, get}
use vortex_portal.Db.Schema.{Db, Device, Result, ok, integrity_error}
use vortex_portal.Db.Devices.{list_devices, authenticate_device}
use vortex_portal.Db.Tokens.{create_account_token, revoke_account_token}
use vortex_portal.Router.Registry.{Registry, online_ids}
use vortex_portal.Auth.Cookies.{login}
use vortex_portal.Hub.Enrolment.{live_node_urls}
use vortex_portal.Hub.Relay.{elsewhere_map}

-- What a device gets: the 403 of wrong credentials, the 500 of an exception, or an answer.
pub data Answer {ℓ} (A : Type ℓ) : Type ℓ where
  invalid : Answer A
  failed : Answer A
  answered : A → Answer A

abbrev optional_num : Option ℕ → Json
optional_num none = null
optional_num (some n) = num n

abbrev optional_text : Option Text → Json
optional_text none = null
optional_text (some t) = text t

-- One device of `/api/account/devices`.
unfoldable pub device_entry : Text → List Text → Dict Text → Device → Fields
device_entry asker online elsewhere r = field (codes "id") (text r.id) (
    field (codes "name") (text r.name) (
      field (codes "online") (bool (contains r.id online)) (
        field (codes "elsewhere") (optional_text (get r.id elsewhere)) (
          field (codes "last_seen") (optional_num r.last_seen) (
            field (codes "paired_at") (num r.paired_at)
              (field (codes "this_device") (bool (text_eq r.id asker)) end))))))

abbrev entries : Text → List Text → Dict Text → List Device → Items
entries asker online elsewhere [] = nil
entries asker online elsewhere (d ∷ ds) =
    cons (obj (device_entry asker online elsewhere d)) (entries asker online elsewhere ds)

module _ (hash_token : Text → Text) where
  -- The device of a request's credentials.
  unfoldable pub device_of : Db → Text → Text → Option Device
  device_of db given_id given_token =
      if non_empty (strip given_id)
      then authenticate_device hash_token db (strip given_id) given_token
      else none

  abbrev pub nodes_for : List Text → Option Device → Answer (List Text)
  nodes_for urls none = invalid
  nodes_for urls (some d) = answered urls

  unfoldable pub api_nodes : Db → Text → Text → Text → ℕ → Answer (List Text)
  unfolding device_of
  api_nodes db given_id given_token here now =
      nodes_for (live_node_urls db here now) (device_of db given_id given_token)

  -- The JSON of the devices, and the user's id.
  abbrev pub devices_for : Text → Registry → Db → Text → ℕ → Option Device → Answer (Json × ℕ)
  devices_for url registry db asker now none = invalid
  devices_for url registry db asker now (some d) = answered (
    arr (
        entries asker (online_ids registry) (elsewhere_map url registry db d.owner_id now)
          (list_devices db d.owner_id)),
    d.owner_id,
  )

  unfoldable pub api_account_devices : Text → Registry → Db → Text → Text → ℕ → Answer (Json × ℕ)
  unfolding device_of device_entry
  api_account_devices url registry db given_id given_token now =
      devices_for url registry db (strip given_id) now (device_of db given_id given_token)

  abbrev pub signed_in : ℕ → Db → Result Db → Answer ℕ × Db
  signed_in user_id db (ok db') = (answered user_id, db')
  signed_in user_id db integrity_error = (failed, db)

  abbrev pub session_for : Db → Text → ℕ → ℕ → Option Device → Answer ℕ × Db
  session_for db drawn ttl now none = (invalid, db)
  session_for db drawn ttl now (some d) =
      signed_in d.owner_id db (login hash_token db d.owner_id drawn ttl now)

  -- `drawn` is the session token that the cookie gets.
  unfoldable pub api_device_session : Db → Text → Text → Text → ℕ → ℕ → Answer ℕ × Db
  unfolding device_of
  api_device_session db given_id given_token drawn ttl now =
      session_for db drawn ttl now (device_of db given_id given_token)

  -- `/enroll-tokens`: the page shows the token that was drawn, once.
  unfoldable pub enroll_tokens_create : Db → ℕ → Text → Text → ℕ → Result Db
  enroll_tokens_create db user_id label drawn now =
      create_account_token hash_token db user_id (or_none (take 60 (strip label))) drawn now

-- The answer is a redirection, whether there was such a token or not.
unfoldable pub enroll_tokens_delete : Db → ℕ → ℕ → Db
enroll_tokens_delete db user_id token_id = (revoke_account_token db token_id user_id).1
