-- ===== src/Router/Connection.antt =====
-- hub/ws_router.py, `AgentConnection`: many requests over one socket. A coroutine that waits is cut
-- in two functions, up to the wait and from it on; what a socket sends is appended to `sent`.
pub mod Routing
use vortex_portal.Base.{
  ℕ, suc, Bool, true, false, ◌&&◌, ◌||◌, not, Option, none, some, List, [], ◌∷◌, ◌++◌,
  if◌then◌else◌, map,
}
use vortex_portal.Base.Text.{Text, codes, text_eq, contains}
use vortex_portal.Base.Json.{
  Json, null, bool, num, negative, text, arr, obj, Items, nil, cons, Fields, end, field, lookup,
  truthy, or_value,
}
use vortex_portal.Base.Dict.{Dict, get, put, remove}

abbrev pub Bytes : Type 0
Bytes = List ℕ

-- asyncio.Future
pub data Future : Type 0 where
  pending : Future
  result : Fields → Future
  exception : Json → Future

-- What a stream's queue holds: a message, the envelope of a binary chunk, or the final None.
pub data Item : Type 0 where
  message : Fields → Item
  chunk : Text → Bytes → Item
  closing : Item

-- An id as a key of the two dictionaries, whose keys are texts: a text, another value that is no
-- key, or a list or an object, which Python cannot look up.
pub data Key : Type 0 where
  names : Text → Key
  no_rid : Key
  unhashable : Key

abbrev pub key_of : Json → Key
key_of null = no_rid
key_of (bool b) = no_rid
key_of (num n) = no_rid
key_of (negative n) = no_rid
key_of (text t) = names t
key_of (arr vs) = unhashable
key_of (obj fs) = unhashable

pub data Frame : Type 0 where
  json : Fields → Frame
  binary : Bytes → Frame

pub record Connection : Type 0 where
  pub device_id : Text
  pub owner_id : ℕ
  pub name : Text
  pub pending_unary : Dict Future
  pub pending_stream : Dict (List Item)
  pub closed : Bool
  pub pending_binary_for_rid : Key
  pub direct_info : Option (Json × Json × Json)
  pub sent : List Frame

-- `__init__`
unfoldable pub new_connection : Text → ℕ → Text → Connection
new_connection device_id owner_id name = record {
  device_id = device_id;
  owner_id = owner_id;
  name = name;
  pending_unary = [];
  pending_stream = [];
  closed = false;
  pending_binary_for_rid = no_rid;
  direct_info = none;
  sent = [];
}

abbrev pub of_type : Text → Text → Fields
of_type kind rid = field (codes "type") (text kind) (field (codes "id") (text rid) end)

unfoldable pub request_frame : Text → Text → Fields → Fields
request_frame rid op args = field (codes "type") (text (codes "request")) (
    field (codes "id") (text rid)
      (field (codes "op") (text op) (field (codes "args") (obj args) end)))

unfoldable pub send : Fields → Connection → Connection
send msg c = record c { sent = c.sent ++ json msg ∷ [] }

-- `request` up to its wait, with the id that `uuid4` drew
unfoldable pub start_request : Text → Text → Fields → Connection → Connection
unfolding request_frame send
start_request rid op args c =
    send (request_frame rid op args) (record c { pending_unary = put rid pending c.pending_unary })

-- The chunks of `upload`: empty ones are skipped, each other one goes out behind its header.
unfoldable pub send_chunks : Text → List Bytes → Connection → Connection
send_chunks rid [] c = c
send_chunks rid ([] ∷ chunks) c = send_chunks rid chunks c
send_chunks rid ((b ∷ bs) ∷ chunks) c = send_chunks rid chunks (record c {
  sent = c.sent ++ json (of_type (codes "stream_chunk_header") rid) ∷ binary (b ∷ bs) ∷ [];
})

-- `upload` up to its wait
unfoldable pub start_upload : Text → Text → Fields → List Bytes → Connection → Connection
unfolding start_request send_chunks send
start_upload rid op args chunks c =
    send (of_type (codes "stream_end") rid) (send_chunks rid chunks (start_request rid op args c))

-- What a caller of `request` or `upload` gets: the result, an `AgentError`, or `TimeoutError`.
pub data Reply : Type 0 where
  value : Json → Reply
  agent_error : Json → Reply
  timeout : Reply

-- if not msg.get("ok"): raise …; return msg.get("result") or {}
unfoldable pub read_reply : Fields → Reply
read_reply msg =
    if truthy (lookup (codes "ok") msg)
    then value (or_value (lookup (codes "result") msg) (obj end))
    else agent_error (or_value (lookup (codes "error") msg) (text (codes "agent error")))

abbrev pub read_future : Option Future → Reply
read_future none = timeout
read_future (some pending) = timeout
read_future (some (result msg)) = read_reply msg
read_future (some (exception e)) = agent_error e

-- `request` and `upload` from the wait on; a future still pending is the timeout
unfoldable pub finish_request : Text → Connection → Reply × Connection
unfolding read_reply
finish_request rid c =
    (read_future (get rid c.pending_unary), record c { pending_unary = remove rid c.pending_unary })

-- `stream` up to its first wait
unfoldable pub start_stream : Text → Text → Fields → Connection → Connection
unfolding request_frame send
start_stream rid op args c =
    send (request_frame rid op args) (record c { pending_stream = put rid [] c.pending_stream })

-- What one turn of the loop in `stream` does with an item: yield and go on, yield and end, end, or
-- raise. The item's fields are those of the message, or of the envelope of a binary chunk.
pub data Turn : Type 0 where
  yields : Item → Turn
  yields_last : Item → Turn
  returns : Turn
  raises : Json → Turn

abbrev pub is_type : Text → Fields → Bool
is_type kind msg = elim (lookup (codes "type") msg) [ text t ↦ text_eq t kind | _ ↦ false ]

-- msg.get("ok", True), which a missing key makes true and a null does not
unfoldable pub has_key : Text → Fields → Bool
has_key key end = false
has_key key (field k v fs) = text_eq k key || has_key key fs

unfoldable pub take_turn : Item → Turn
unfolding has_key
take_turn closing = returns
take_turn (chunk rid bytes) = yields (chunk rid bytes)
take_turn (message msg) =
    if has_key (codes "ok") msg
      && not (truthy (lookup (codes "ok") msg))
      && is_type (codes "response") msg
    then raises (or_value (lookup (codes "error") msg) (text (codes "agent error")))
    else if is_type (codes "stream_end") msg
    then yields_last (message msg)
    else yields (message msg)

-- `TypeError`, for an id that cannot be looked up
pub data Outcome : Type 0 where
  done : Connection → Outcome
  type_error : Outcome

abbrev enqueue_in : Connection → Text → Item → Option (List Item) → Connection
enqueue_in c r item none = c
enqueue_in c r item (some q) = record c { pending_stream = put r (q ++ item ∷ []) c.pending_stream }

-- q = self._pending_stream.get(rid); if q is not None: await q.put(item)
unfoldable pub enqueue : Text → Item → Connection → Connection
enqueue r item c = enqueue_in c r item (get r c.pending_stream)

-- The unary waiter takes the response if it is still waiting, else the stream gets it.
abbrev answer : Text → Fields → Connection → Option Future → Connection
answer r msg c none = enqueue r (message msg) c
answer r msg c (some pending) = record c { pending_unary = put r (result msg) c.pending_unary }
answer r msg c (some (result m)) = enqueue r (message msg) c
answer r msg c (some (exception e)) = enqueue r (message msg) c

abbrev respond : Fields → Connection → Key → Outcome
respond msg c (names r) = done (answer r msg c (get r c.pending_unary))
respond msg c no_rid = done c
respond msg c unhashable = type_error

abbrev forward : Fields → Connection → Key → Outcome
forward msg c (names r) = done (enqueue r (message msg) c)
forward msg c no_rid = done c
forward msg c unhashable = type_error

unfoldable pub handle_incoming : Fields → Connection → Outcome
unfolding enqueue
handle_incoming msg c =
    let key = key_of (lookup (codes "id") msg) in
    if is_type (codes "direct_info") msg
    then (done (record c {
      direct_info = some (
        lookup (codes "port") msg,
        or_value (lookup (codes "hosts") msg) (arr nil),
        lookup (codes "ticket") msg,
      );
    }))
    else if is_type (codes "response") msg
    then respond msg c key
    else if is_type (codes "stream_chunk_header") msg
    then done (record c { pending_binary_for_rid = key })
    else if is_type (codes "stream_start") msg
        || is_type (codes "stream_chunk") msg
        || is_type (codes "stream_end") msg
    then forward msg c key
    else if truthy (lookup (codes "id") msg)
    then forward msg c key
    else done c

-- The chunk goes to the stream that the last header named, if any; None and every other key name
-- no stream.
abbrev deliver : Bytes → Connection → Key → Outcome
deliver bytes c no_rid = done c
deliver bytes c (names r) = done (enqueue r (chunk r bytes) c)
deliver bytes c unhashable = type_error

unfoldable pub handle_incoming_binary : Bytes → Connection → Outcome
unfolding enqueue
handle_incoming_binary bytes c =
    deliver bytes (record c { pending_binary_for_rid = no_rid }) c.pending_binary_for_rid

-- The two loops of `close_pending`.
unfoldable pub fail_all : Text → Dict Future → Dict Future
fail_all error [] = []
fail_all error ((r, pending) ∷ d) = (r, exception (text error)) ∷ fail_all error d
fail_all error ((r, result m) ∷ d) = (r, result m) ∷ fail_all error d
fail_all error ((r, exception e) ∷ d) = (r, exception e) ∷ fail_all error d

unfoldable pub close_all : Dict (List Item) → Dict (List Item)
close_all [] = []
close_all ((r, q) ∷ d) = (r, q ++ closing ∷ []) ∷ close_all d

unfoldable pub close_pending : Text → Connection → Connection
unfolding fail_all close_all
close_pending error c = record c {
  closed = true;
  pending_unary = fail_all error c.pending_unary;
  pending_stream = close_all c.pending_stream;
}
