-- ===== src/Agent/Pairing.antt =====
-- agent/pairing.py: how an agent gets its configuration. The two files are what they parse to, none
-- for a file that is missing or does not parse; the draft holds texts, as `save_draft` writes it.
-- The HTTP client, the terminal and `str.isdigit` are arguments.
pub mod Stored
use vortex_portal.Base.{
  ℕ, Bool, true, false, ◌&&◌, ◌||◌, not, Option, none, some, List, [], ◌∷◌, if◌then◌else◌, ◌==◌,
  length,
}
use vortex_portal.Base.Text.{
  Text, codes, text_eq, non_empty, rstrip_slash, starts_with, strip, or_else, or_empty,
}
use vortex_portal.Base.Json.{
  Json, null, bool, num, negative, text, arr, obj, Items, nil, cons, Fields, end, field, lookup,
  truthy,
}
use vortex_portal.Base.Dict.{Dict, get, put}
use vortex_portal.Router.Connection.{has_key}

pub record Disk : Type 0 where
  pub config : Option Json
  pub draft : Dict Text

-- The keyword arguments of a call, or the environment; a missing one is empty.
pub record Inputs : Type 0 where
  pub hub_url : Text
  pub code : Text
  pub account_token : Text
  pub device_name : Text

abbrev pub no_inputs : Inputs
no_inputs = record { hub_url = []; code = []; account_token = []; device_name = [] }

-- What a user would type at each prompt, stripped.
pub record Terminal : Type 0 where
  pub is_tty : Bool
  pub typed : Inputs

-- `load_config` gives a configuration or None, or raises, for a file that holds no object.
pub data Loaded : Type 0 where
  absent : Loaded
  broken : Loaded
  loaded : Fields → Loaded

abbrev pub usable : Fields → Loaded
usable cfg =
    if not (truthy (lookup (codes "device_id") cfg)) || not (truthy (lookup (codes "token") cfg))
    then absent
    else if not (truthy (lookup (codes "hub_url") cfg)) && not (truthy (lookup (codes "nodes") cfg))
    then absent
    else loaded cfg

unfoldable pub load_config : Option Json → Loaded
load_config none = absent
load_config (some (obj cfg)) = usable cfg
load_config (some null) = broken
load_config (some (bool b)) = broken
load_config (some (num n)) = broken
load_config (some (negative n)) = broken
load_config (some (text t)) = broken
load_config (some (arr vs)) = broken

-- An empty value changes nothing.
unfoldable pub save_draft : Text → Text → Disk → Disk
save_draft key [] disk = disk
save_draft key (c ∷ s) disk = record disk { draft = put key (c ∷ s) disk.draft }

-- `save_config` and `clear_draft`
abbrev pub finish : Fields → Disk → Disk
finish cfg disk = record { config = some (obj cfg); draft = [] }

-- What the hub answers to a POST; the body is none where it is no JSON.
pub data Posted : Type 0 where
  unreachable : Posted
  responded : ℕ → Option Json → Posted

-- The configuration, or an exception.
pub data Outcome : Type 0 where
  raised : Outcome
  configured : Fields → Outcome

abbrev pub get_or : Text → Json → Fields → Json
get_or key default fs = if has_key key fs then lookup key fs else default

unfoldable pub pair_config : Text → Text → Fields → Fields
pair_config hub_url device_name data' =
    field (codes "device_id") (lookup (codes "device_id") data') (
      field (codes "token") (lookup (codes "token") data') (
        field (codes "hub_url") (text hub_url) (
          field (codes "name")
            (get_or (codes "name") (text (or_else device_name (codes "Unnamed"))) data') end)))

abbrev has_credentials : Fields → Bool
has_credentials data' = has_key (codes "device_id") data' && has_key (codes "token") data'

-- From the parsed body on; a body that is no object raises.
abbrev pub keep_pair : Text → Text → Disk → Option Json → Outcome × Disk
keep_pair hub_url device_name disk none = (raised, disk)
keep_pair hub_url device_name disk (some (obj data')) =
    if has_credentials data'
    then (
      configured (pair_config hub_url device_name data'),
      finish (pair_config hub_url device_name data') disk,
    )
    else (raised, disk)
keep_pair hub_url device_name disk (some null) = (raised, disk)
keep_pair hub_url device_name disk (some (bool b)) = (raised, disk)
keep_pair hub_url device_name disk (some (num n)) = (raised, disk)
keep_pair hub_url device_name disk (some (negative n)) = (raised, disk)
keep_pair hub_url device_name disk (some (text t)) = (raised, disk)
keep_pair hub_url device_name disk (some (arr vs)) = (raised, disk)

abbrev pub after_pair : Text → Text → Disk → Posted → Outcome × Disk
after_pair hub_url device_name disk unreachable = (raised, disk)
after_pair hub_url device_name disk (responded status body) =
    if status == 200 then keep_pair hub_url device_name disk body else (raised, disk)

abbrev pub with_name : Text → Fields → Fields
with_name [] fs = fs
with_name (c ∷ s) fs = field (codes "device_name") (text (c ∷ s)) fs

abbrev pub is_http : Text → Bool
is_http url = starts_with (codes "http://") url || starts_with (codes "https://") url

-- `hub_url not in nodes`, for the list of nodes; the answer of a hub has a list or none.
abbrev is_listed : Text → Items → Bool
is_listed url nil = false
is_listed url (cons null vs) = is_listed url vs
is_listed url (cons (bool b) vs) = is_listed url vs
is_listed url (cons (num n) vs) = is_listed url vs
is_listed url (cons (negative n) vs) = is_listed url vs
is_listed url (cons (text t) vs) = text_eq t url || is_listed url vs
is_listed url (cons (arr us) vs) = is_listed url vs
is_listed url (cons (obj fs) vs) = is_listed url vs

abbrev listed_nodes : Json → Items
listed_nodes (arr vs) = vs
listed_nodes null = nil
listed_nodes (bool b) = nil
listed_nodes (num n) = nil
listed_nodes (negative n) = nil
listed_nodes (text t) = nil
listed_nodes (obj fs) = nil

abbrev with_hub : Text → Items → Items
with_hub url vs = if is_listed url vs then vs else cons (text url) vs

unfoldable pub enroll_config : Text → Text → Text → Fields → Fields
enroll_config hub_url account_token device_name data' =
    field (codes "device_id") (lookup (codes "device_id") data') (
      field (codes "token") (lookup (codes "token") data') (
        field (codes "hub_url") (text hub_url) (
          field (codes "nodes")
            (arr (with_hub hub_url (listed_nodes (lookup (codes "nodes") data'))))
            (field (codes "name")
              (get_or (codes "name") (text (or_else device_name (codes "Unnamed"))) data')
              (field (codes "account_token") (text account_token) end)))))

abbrev pub keep_enroll : Text → Text → Text → Disk → Option Json → Outcome × Disk
keep_enroll hub_url account_token device_name disk none = (raised, disk)
keep_enroll hub_url account_token device_name disk (some (obj data')) =
    if has_credentials data'
    then (
      configured (enroll_config hub_url account_token device_name data'),
      finish (enroll_config hub_url account_token device_name data') disk,
    )
    else (raised, disk)
keep_enroll hub_url account_token device_name disk (some null) = (raised, disk)
keep_enroll hub_url account_token device_name disk (some (bool b)) = (raised, disk)
keep_enroll hub_url account_token device_name disk (some (num n)) = (raised, disk)
keep_enroll hub_url account_token device_name disk (some (negative n)) = (raised, disk)
keep_enroll hub_url account_token device_name disk (some (text t)) = (raised, disk)
keep_enroll hub_url account_token device_name disk (some (arr vs)) = (raised, disk)

abbrev pub after_enroll : Text → Text → Text → Disk → Posted → Outcome × Disk
after_enroll hub_url account_token device_name disk unreachable = (raised, disk)
after_enroll hub_url account_token device_name disk (responded status body) =
    if status == 200
    then keep_enroll hub_url account_token device_name disk body
    else (raised, disk)

-- `post` is the hub's answer to a payload, by the node's URL and the path.
module _ (isdigit : Text → Bool) (post : Text → Text → Fields → Posted) (env : Inputs)
    (terminal : Terminal) where
  abbrev pub submit_pair : Text → Text → Text → Disk → Outcome × Disk
  submit_pair hub_url code device_name disk =
      if not (is_http hub_url)
      then (raised, disk)
      else if not (non_empty code) || not (isdigit code) || not (length code == 6)
      then (raised, disk)
      else after_pair hub_url device_name disk (
          post hub_url (codes "/api/pair")
            (field (codes "code") (text code) (with_name device_name end)))

  -- From the hub's URL on, which has been saved; `asked` tells that it was prompted for.
  abbrev pub pair_with : Inputs → Text → Bool → Text → Disk → Outcome × Disk
  pair_with given hub_url asked prior disk =
      let code' = or_else given.code env.code in
      let name' = or_else given.device_name (or_else env.device_name prior) in
      let prompts = asked || not (non_empty code') in
      let name =
        if not (non_empty name') && prompts && terminal.is_tty
        then or_else terminal.typed.device_name prior
        else name' in
      if not (non_empty code') && not terminal.is_tty
      then (raised, disk)
      else submit_pair hub_url (or_else code' terminal.typed.code) name
          (save_draft (codes "device_name") name disk)

  unfoldable pub pair_now : Inputs → Disk → Outcome × Disk
  unfolding save_draft pair_config
  pair_now given disk =
      let prior = or_empty (get (codes "device_name") disk.draft) in
      let hub = rstrip_slash (
        or_else given.hub_url
          (or_else env.hub_url (or_empty (get (codes "hub_url") disk.draft)))) in
      let url = or_else hub (rstrip_slash terminal.typed.hub_url) in
      if not (non_empty hub) && not terminal.is_tty
      then (raised, disk)
      else pair_with given url (not (non_empty hub)) prior (save_draft (codes "hub_url") url disk)

  abbrev submit_enroll : Text → Text → Text → Disk → Outcome × Disk
  submit_enroll hub_url account_token device_name disk =
      if not (is_http hub_url)
      then (raised, disk)
      else if not (non_empty account_token)
      then (raised, disk)
      else after_enroll hub_url account_token device_name disk (
          post hub_url (codes "/api/enroll")
            (field (codes "account_token") (text account_token) (with_name device_name end)))

  unfoldable pub enroll_now : Inputs → Disk → Outcome × Disk
  unfolding save_draft enroll_config
  enroll_now given disk =
      let hub = rstrip_slash (
        or_else given.hub_url
          (or_else env.hub_url (or_empty (get (codes "hub_url") disk.draft)))) in
      let token = strip (
        or_else given.account_token
          (or_else env.account_token (or_empty (get (codes "account_token") disk.draft)))) in
      let name = strip (
        or_else given.device_name
          (or_else env.device_name (or_empty (get (codes "device_name") disk.draft)))) in
      let url = or_else hub (rstrip_slash terminal.typed.hub_url) in
      let saved = save_draft (codes "hub_url") url disk in
      if not (non_empty hub) && not terminal.is_tty
      then (raised, disk)
      else if not (non_empty token) && not terminal.is_tty
      then (raised, saved)
      else submit_enroll url (or_else token terminal.typed.account_token) name saved

  -- `wait_for_config` on what the file holds at each poll; none while it is still waiting.
  unfoldable pub wait_for_config : List (Option Json) → Option Outcome
  unfolding load_config
  wait_for_config [] = none
  wait_for_config (found ∷ later) = elim (load_config found) [
    | absent ↦ wait_for_config later
    | broken ↦ some raised
    | loaded cfg ↦ some (configured cfg)
  ]

  abbrev first_enrolment : Bool → List (Option Json) → Disk → Option Outcome × Disk
  first_enrolment wait polls disk =
      if non_empty env.code
      then (some (pair_now no_inputs disk).0, (pair_now no_inputs disk).1)
      else if non_empty env.account_token
      then (some (enroll_now no_inputs disk).0, (enroll_now no_inputs disk).1)
      else if wait
      then (wait_for_config polls, disk)
      else (some (enroll_now no_inputs disk).0, (enroll_now no_inputs disk).1)

  abbrev pub resume : Bool → List (Option Json) → Disk → Loaded → Option Outcome × Disk
  resume wait polls disk absent = first_enrolment wait polls disk
  resume wait polls disk broken = (some raised, disk)
  resume wait polls disk (loaded cfg) = (some (configured cfg), disk)

  unfoldable pub ensure_paired : Bool → List (Option Json) → Disk → Option Outcome × Disk
  unfolding pair_now enroll_now wait_for_config
  ensure_paired wait polls disk = resume wait polls disk (load_config disk.config)
