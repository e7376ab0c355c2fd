-- ===== src/Hub/Direct.antt =====
-- hub/app.py, `device_direct`: where a browser can reach a device directly, and with which ticket.
-- `str_of` is the text that an f-string makes of a value.
pub mod Ticket
use vortex_portal.Base.{
  ℕ, Bool, true, false, ◌||◌, not, Option, none, some, List, [], ◌∷◌, ◌++◌, if◌then◌else◌,
}
use vortex_portal.Base.Text.{Text, codes}
use vortex_portal.Base.Json.{
  Json, null, bool, num, negative, text, arr, obj, Items, nil, cons, Fields, end, field, truthy,
}
use vortex_portal.Db.Schema.{Db}
use vortex_portal.Db.Devices.{get_device_for_user}
use vortex_portal.Router.Connection.{Connection}
use vortex_portal.Router.Registry.{Registry, get_conn}
use vortex_portal.Hub.Devices.{Response, status, body, owned}

abbrev pub direct_answer : Items → Json → Response
direct_answer urls ticket =
    body (obj (field (codes "ws") (arr urls) (field (codes "ticket") ticket end)))

module _ (str_of : Json → Text) where
  abbrev pub ws_url : Json → Json → Json
  ws_url port host = text (codes "ws://" ++ (str_of host ++ b':' ∷ (str_of port ++ b'/' ∷ [])))

  abbrev pub each_host : Json → Items → Items
  each_host port nil = nil
  each_host port (cons h hs) = cons (ws_url port h) (each_host port hs)

  -- Iterating a text gives its characters, and an object its keys; a number raises.
  abbrev each_char : Json → Text → Items
  each_char port [] = nil
  each_char port (c ∷ t) = cons (ws_url port (text (c ∷ []))) (each_char port t)

  abbrev each_key : Json → Fields → Items
  each_key port end = nil
  each_key port (field k v fs) = cons (ws_url port (text k)) (each_key port fs)

  abbrev pub urls_answer : Json → Json → Json → Response
  urls_answer port ticket (arr hosts) = direct_answer (each_host port hosts) ticket
  urls_answer port ticket (text t) = direct_answer (each_char port t) ticket
  urls_answer port ticket (obj fs) = direct_answer (each_key port fs) ticket
  urls_answer port ticket null = status 500
  urls_answer port ticket (bool b) = status 500
  urls_answer port ticket (num n) = status 500
  urls_answer port ticket (negative n) = status 500

  abbrev pub direct_of : Option (Json × Json × Json) → Response
  direct_of none = direct_answer nil null
  direct_of (some (port, hosts, ticket)) =
      if not (truthy port) || not (truthy hosts)
      then direct_answer nil null
      else urls_answer port ticket hosts

  abbrev pub direct_conn : Registry → Option ℕ → Response
  direct_conn registry none = direct_answer nil null
  direct_conn registry (some ref) = direct_of (registry.heap ref).direct_info

  unfoldable pub device_direct : Db → Registry → ℕ → Text → Response
  device_direct db registry user_id device_id =
      owned (get_device_for_user db device_id user_id)
        (direct_conn registry (get_conn device_id registry))
