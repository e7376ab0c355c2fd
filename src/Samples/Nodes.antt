-- ===== src/Samples/Nodes.antt =====
-- An agent that finds its nodes again, a relayed request, a tick of Theft Mode and a capture.
use vortex_portal.Base.{ℕ, ◌≡◌, refl, Bool, true, false, none, some, Option, List, [], ◌∷◌, arith}
use vortex_portal.Base.Text.{Text, codes, text_eq, rstrip, rstrip_slash}
use vortex_portal.Base.Json.{Json, bool, obj, end, field, lookup}
use vortex_portal.Base.Table.{find, select, matches}
use vortex_portal.Db.Schema.{device_exists, user_exists, Db}
use vortex_portal.Db.Theft.{add_theft_media, armed_devices, with_owner}
use vortex_portal.Router.Connection.{Bytes, Item, message, chunk, of_type, new_connection}
use vortex_portal.Router.Registry.{Registry}
use vortex_portal.Agent.Nodes.{AgentConfig, Ack, closes}
use vortex_portal.Agent.Nodes.Failover
use vortex_portal.Hub.Capture.{
  Store, Kind, Captured, stored, location_kind, capture_to_store, captured, capture_body,
}
use vortex_portal.Hub.Capture.Bounded
use vortex_portal.Hub.Capture.Bounded.{IsIndexed, Kept}
use vortex_portal.Hub.TheftLoop.{Outside, tick, tick_over}
use vortex_portal.Hub.TheftLoop.Debounce
use vortex_portal.Hub.TheftLoop.Rows.{asks_for}
use vortex_portal.Hub.TheftLoop.Debounce.{ticks}
use vortex_portal.Hub.Relay.{relay_target, relay_device}
use vortex_portal.Hub.Relay.Agreement
use vortex_portal.Hub.Relay.Agreement.{HasHosts, named_target}
use vortex_portal.Samples.{home}

abbrev agent_config : AgentConfig
agent_config = record {
  device_id = codes "d1";
  token = codes "tok";
  hub_url = codes "http://a";
  nodes = codes "http://a/" ∷ [];
  sync_url = [];
  sync_token = [];
}

abbrev welcome : Ack
welcome = record {
  is_ok = true;
  error = [];
  nodes = codes "http://b/" ∷ codes "http://a" ∷ [];
  sync_url = [];
  sync_token = [];
}

abbrev same : Text → Text
same t = t

abbrev elsewhere : Db
elsewhere = record home {
  device_presence =
      record { device_id = codes "d1"; node_url = codes "http://b/"; last_seen = 100 } ∷ [];
}

elsewhere-HasHosts : HasHosts elsewhere
unfolding rstrip_slash rstrip
elsewhere-HasHosts = (refl, tt)

abbrev nobody : Registry
nobody = record {
  conns = [];
  heap = λ _. new_connection (codes "d1") 1 (codes "phone");
  closes = [];
}

relay_target-agrees_example :
    (relay_target (codes "http://a") nobody elsewhere (codes "/devices/d1/files") [] false 120
      ≡ named_target
          (codes "http://a")
          nobody
          elsewhere
          (codes "/devices/d1/files")
          []
          120
          (relay_device (codes "/devices/d1/files")))
    × (relay_target (codes "http://a") nobody elsewhere (codes "/devices/d1/files") [] true 120
        ≡ none)
relay_target-agrees_example =
    Agreement.relay_target-agrees (codes "http://a") (codes "/devices/d1/files") [] nobody elsewhere
      120 elsewhere-HasHosts

abbrev armed : Db
armed = record home {
  theft_state =
      record {
        device_id = codes "d1";
        armed = true;
        armed_at = some 10;
        armed_by = some 1;
        interval_s = 60;
        opts = codes "o";
        last_run = some 100;
      }
      ∷ [];
}

abbrev locate : Text → Option Json
locate t = some (obj (field (codes "location") (bool true) end))

abbrev digit : ℕ → Text
digit n = codes "9"

abbrev no_meta : Kind → Bytes → Option Text
no_meta k b = none

abbrev decoded : Json → Bytes
decoded v = []

abbrev empty : Store
empty = record { db = home; files = [] }

abbrev stream : List Item
stream =
    message (of_type (codes "stream_start") (codes "r1"))
    ∷ chunk (codes "r1") (1 ∷ 2 ∷ [])
    ∷ message (of_type (codes "stream_end") (codes "r1"))
    ∷ []

abbrev anywhere : Text → Bool
anywhere path = true

abbrev outside : Outside
outside = record {
  online = λ d. true;
  loads = locate;
  digits = digit;
  meta_of = no_meta;
  inside = anywhere;
  b64decode = decoded;
  retention = 5;
  items = λ job. stream;
  clock = λ job. 185;
  drawn = λ job. codes "x";
}

abbrev armed_store : Store
armed_store = record { db = armed; files = [] }

tick-debounced_example :
    asks_for
      (codes "d1")
      (ticks ((195, outside) ∷ (209, outside) ∷ []) (tick outside 180 armed_store).store)
    ≡ false
unfolding tick tick_over armed_devices with_owner find select text_eq lookup asks_for
tick-debounced_example =
    Debounce.tick-debounced outside (codes "d1") 180 armed_store
      ((195, outside) ∷ (209, outside) ∷ []) refl
      ((omega arith, omega arith), ((omega arith, omega arith), tt))

abbrev outcome : Captured × Store
outcome =
    capture_to_store digit no_meta anywhere decoded (codes "d1") 1 location_kind (codes "auto") 5
      200 (codes "x") stream empty

outcome_lem : outcome ≡ (stored 1, outcome.1)
unfolding capture_to_store captured capture_body lookup text_eq add_theft_media device_exists find
    user_exists
outcome_lem = refl

home-IsIndexed : IsIndexed home
unfolding matches
home-IsIndexed = ((λ i. omega arith), (λ i l. refl))

capture_to_store-bounded_example : Kept (codes "d1") 5 home outcome.1.db
capture_to_store-bounded_example =
    Bounded.capture_to_store-bounded digit no_meta anywhere decoded (codes "d1") 1 location_kind
      (codes "auto") 5 200 1 (codes "x") stream empty outcome.1 home-IsIndexed outcome_lem
