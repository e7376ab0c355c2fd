-- ===== src/Config/Store.antt =====
-- hub/config.py, `Config`: settings resolved through the environment, config.json and defaults.
-- `environ` is `os.environ`, `file` the object of config.json, `show` Python's `str` of a value
-- that is no text.
pub mod Masking
use vortex_portal.Base.{
  ℕ, suc, ◌+◌, ◌-◌, ◌*◌, max, Bool, true, false, ◌&&◌, ◌||◌, not, Option, none, some, List, [], ◌∷◌,
  ◌++◌, if◌then◌else◌, leb, ltb, ◌==◌, length, drop, is_some, map,
}
use vortex_portal.Base.Text.{
  Text, codes, text_eq, strip, rstrip_slash, non_empty, contains, or_else,
}
use vortex_portal.Base.Json.{Json, null, bool, num, negative, text, arr, obj}
use vortex_portal.Base.Dict.{Dict, get, put, remove}
use vortex_portal.Base.Table.{find}

pub record Setting : Type 0 where
  pub key : Text
  pub restart : Bool
  pub live : Bool
  pub secret : Bool
  pub default : Text

abbrev setting : Text → Bool → Bool → Text → Setting
setting key live secret default = record {
  key = key;
  restart = not live;
  live = live;
  secret = secret;
  default = default;
}

-- `_SPEC`
abbrev pub settings_spec : List Setting
settings_spec =
    setting (codes "VORTEX_SYNC_URL") false false []
    ∷ setting (codes "VORTEX_SYNC_TOKEN") false true []
    ∷ setting (codes "VORTEX_HUB_DB") false false []
    ∷ setting (codes "APP_PORT") false false (codes "8000")
    ∷ setting (codes "CLOUDFLARE_TUNNEL_TOKEN") false true []
    ∷ setting (codes "VORTEX_HUB_PUBLIC_URL") true false []
    ∷ setting (codes "VORTEX_LOCK_TTL") true false (codes "30")
    ∷ setting (codes "VORTEX_SESSION_TTL") true false (codes "2592000")
    ∷ setting (codes "VORTEX_REGISTRATION_MODE") true false (codes "invite")
    ∷ setting (codes "VORTEX_MEDIA_DIR") true false []
    ∷ setting (codes "VORTEX_THEFT_RETENTION") true false (codes "200")
    ∷ []

unfoldable pub spec_of : Text → Option Setting
spec_of key = find (λ (s : Setting). text_eq s.key key) settings_spec

abbrev pub default_of : Option Setting → Text
default_of none = []
default_of (some s) = s.default

-- The integer of `int(text)`: `negsuc n` is -(n + 1).
pub data ℤ : Type 0 where
  pos : ℕ → ℤ
  negsuc : ℕ → ℤ

-- max(low, n)
abbrev pub at_least : ℕ → ℤ → ℕ
at_least low (pos n) = max low n
at_least low (negsuc n) = low

pub record View : Type 0 where
  pub key : Text
  pub value : Text
  pub secret : Bool
  pub secret_hint : Text
  pub restart : Bool
  pub live : Bool
  pub source : Text

-- val[-4:]
abbrev pub last_four : Text → Text
last_four val = drop (length val - 4) val

-- "set ✓ (…abcd)", "set ✓" or "": the check mark and the ellipsis are 10003 and 8230
abbrev pub hint_of : Text → Text
hint_of val =
    if not (non_empty val)
    then []
    else if leb 4 (length val)
    then codes "set " ++ 10003 ∷ 32 ∷ 40 ∷ 8230 ∷ (last_four val ++ 41 ∷ [])
    else codes "set " ++ 10003 ∷ []

-- One turn of the loop in `public_view`, from the setting's value and source.
abbrev pub view_with : Setting → Text → Text → View
view_with s val source = record {
  key = s.key;
  value = if s.secret then [] else val;
  secret = s.secret;
  secret_hint = if s.secret then hint_of val else [];
  restart = s.restart;
  live = s.live;
  source = source;
}

-- One turn of the loop in `set_many`, for a key of the spec.
abbrev write_key : Text → Text → Option Setting → Dict Json → Dict Json
write_key k v none file = file
write_key k v (some s) file =
    if s.secret && not (non_empty v)
    then file
    else if not (non_empty v)
    then remove k file
    else put k (text v) file

unfoldable pub set_many : Dict Text → Dict Json → Dict Json
unfolding spec_of
set_many [] file = file
set_many ((k, v) ∷ values) file = set_many values (write_key k v (spec_of k) file)

-- fv not in (None, "")
abbrev pub present : Option Json → Bool
present none = false
present (some null) = false
present (some (text [])) = false
present (some v) = true

module _ (show : Json → Text) where
  abbrev pub to_text : Option Json → Text
  to_text none = []
  to_text (some (text t)) = t
  to_text (some v) = show v

  abbrev from_env : Option Text → Text → Text
  from_env none other = other
  from_env (some []) other = other
  from_env (some (c ∷ s)) other = c ∷ s

  -- `get(key, default)`; without a default the spec's is taken
  unfoldable pub get_setting : Dict Text → Dict Json → Text → Option Text → Text
  unfolding spec_of
  get_setting environ file key default = from_env (get key environ) (
      if present (get key file)
      then to_text (get key file)
      else (elim default [ none ↦ default_of (spec_of key) | some d ↦ d ]))

  unfoldable pub source_of : Dict Text → Dict Json → Text → Text
  source_of environ file key =
      if non_empty (from_env (get key environ) [])
      then codes "env"
      else if present (get key file)
      then codes "config"
      else codes "default"

  -- `parse_int` is Python's `int` of a text, `none` its ValueError; `get_int` is called with the
  -- text of its default, so that it answers the default if nothing is set.
  module _ (parse_int : Text → Option ℤ) (digits : ℕ → Text) where
    unfoldable pub get_int : Dict Text → Dict Json → Text → ℕ → ℤ
    get_int environ file key default =
        elim (parse_int (get_setting environ file key (some (digits default)))) [
          | none ↦ pos default
          | some n ↦ n
        ]

    unfoldable pub lock_ttl : Dict Text → Dict Json → ℕ
    lock_ttl environ file = at_least 5 (get_int environ file (codes "VORTEX_LOCK_TTL") 30)

    unfoldable pub session_ttl : Dict Text → Dict Json → ℕ
    session_ttl environ file =
        at_least 300 (get_int environ file (codes "VORTEX_SESSION_TTL") (30 * 24 * 3600))

    unfoldable pub theft_retention : Dict Text → Dict Json → ℕ
    theft_retention environ file =
        at_least 10 (get_int environ file (codes "VORTEX_THEFT_RETENTION") 200)

  -- `lower` is `str.lower`.
  unfoldable pub registration_mode : (Text → Text) → Dict Text → Dict Json → Text
  registration_mode lower environ file =
      let m =
        lower
          (get_setting environ file (codes "VORTEX_REGISTRATION_MODE") (some (codes "invite"))) in
      if contains m (codes "open" ∷ codes "invite" ∷ codes "closed" ∷ []) then m else codes "invite"

  unfoldable pub public_url_override : Dict Text → Dict Json → Text
  unfolding get_setting
  public_url_override environ file =
      rstrip_slash (get_setting environ file (codes "VORTEX_HUB_PUBLIC_URL") (some []))

  -- `home` is the expansion of "~/vortex/media".
  unfoldable pub media_dir : Text → Dict Text → Dict Json → Text
  unfolding get_setting
  media_dir home environ file =
      or_else (strip (get_setting environ file (codes "VORTEX_MEDIA_DIR") (some []))) home

  view_of : Dict Text → Dict Json → Setting → View
  view_of environ file s =
      view_with s (get_setting environ file s.key none) (source_of environ file s.key)

  unfoldable pub public_view : Dict Text → Dict Json → List View
  unfolding view_of
  public_view environ file = map (view_of environ file) settings_spec
