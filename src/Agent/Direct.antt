-- ===== src/Agent/Direct.antt =====
-- agent/agent.py: the direct-connect server, `_direct_handler`, what the agent tells the hub about
-- it, and `_serve_ws`, the loop that serves one socket. A request runs as a task of its own, so that
-- the loop only collects the requests.
use vortex_portal.Base.{
  ℕ, Bool, false, ◌&&◌, Option, none, some, List, [], ◌∷◌, ◌++◌, if◌then◌else◌,
}
use vortex_portal.Base.Text.{Text, codes, text_eq}
use vortex_portal.Base.Json.{
  Json, null, bool, num, negative, text, arr, obj, Items, nil, cons, Fields, end, field, lookup,
}
use vortex_portal.Router.Connection.{Bytes, is_type}
use vortex_portal.Agent.Session.{
  Session, Routed, routed, route_error, route_text_frame, route_binary_frame,
}

-- What a socket gives: bytes, or a text as what it parses to.
pub data Raw : Type 0 where
  raw_bytes : Bytes → Raw
  raw_text : Option Json → Raw

-- The requests that became tasks, while the loop goes on or after an exception.
pub data Served : Type 0 where
  serving : Session → List Fields → Served
  broken : List Fields → Served

abbrev after_text : List Fields → Fields → Routed → Served
after_text requests msg (routed taken s) =
    if taken
    then serving s requests
    else if is_type (codes "request") msg
    then serving s (requests ++ msg ∷ [])
    else serving s requests
after_text requests msg route_error = broken requests

abbrev after_bytes : List Fields → Routed → Served
after_bytes requests (routed taken s) = serving s requests
after_bytes requests route_error = broken requests

-- One round; a text that does not parse is passed over, and a value that is no object raises.
unfoldable pub serve_frame : Raw → Session → List Fields → Served
serve_frame (raw_bytes bytes) s requests = after_bytes requests (route_binary_frame bytes s)
serve_frame (raw_text none) s requests = serving s requests
serve_frame (raw_text (some (obj msg))) s requests =
    after_text requests msg (route_text_frame msg s)
serve_frame (raw_text (some null)) s requests = broken requests
serve_frame (raw_text (some (bool b))) s requests = broken requests
serve_frame (raw_text (some (num n))) s requests = broken requests
serve_frame (raw_text (some (negative n))) s requests = broken requests
serve_frame (raw_text (some (text t))) s requests = broken requests
serve_frame (raw_text (some (arr vs))) s requests = broken requests

unfoldable pub serve_ws : List Raw → Session → List Fields → Served
unfolding serve_frame
serve_ws [] s requests = serving s requests
serve_ws (raw ∷ more) s requests = elim (serve_frame raw s requests) [
  | broken done ↦ broken done
  | serving s' done ↦ serve_ws more s' done
]

abbrev pub texts : List Text → Items
texts [] = nil
texts (t ∷ ts) = cons (text t) (texts ts)

unfoldable pub direct_info_msg : ℕ → List Text → Text → Fields
direct_info_msg port hosts ticket = field (codes "type") (text (codes "direct_info")) (
    field (codes "port") (num port)
      (field (codes "hosts") (arr (texts hosts)) (field (codes "ticket") (text ticket) end)))

-- value == text
abbrev pub is_text : Text → Json → Bool
is_text t null = false
is_text t (bool b) = false
is_text t (num n) = false
is_text t (negative n) = false
is_text t (text s) = text_eq s t
is_text t (arr vs) = false
is_text t (obj fs) = false

abbrev pub is_hello : Text → Fields → Bool
is_hello ticket msg = is_type (codes "hello") msg && is_text ticket (lookup (codes "ticket") msg)

-- How a direct connection begins: closed with 1008, without or behind a `hello_fail`, or let in
-- with a `hello_ok`. No first message, or one that does not parse, is none.
pub data Greeting : Type 0 where
  closed : Greeting
  refused : Greeting
  welcomed : Greeting

unfoldable pub greet : Text → Option Json → Greeting
greet ticket none = closed
greet ticket (some (obj msg)) = if is_hello ticket msg then welcomed else refused
greet ticket (some null) = refused
greet ticket (some (bool b)) = refused
greet ticket (some (num n)) = refused
greet ticket (some (negative n)) = refused
greet ticket (some (text t)) = refused
greet ticket (some (arr vs)) = refused

-- The requests that a direct connection gets served.
unfoldable pub direct_handler : Text → Option Json → List Raw → Session → Greeting × Served
unfolding greet serve_ws
direct_handler ticket first frames s = elim (greet ticket first) [
  | closed ↦ (closed, broken [])
  | refused ↦ (refused, broken [])
  | welcomed ↦ (welcomed, serve_ws frames s [])
]
