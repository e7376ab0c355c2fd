-- ===== src/Agent/Session.antt =====
-- agent/agent.py, `Session`: the agent's side of the socket. The ids of inbound streams are the
-- texts that the hub drew.
use vortex_portal.Base.{
  Bool, true, false, ◌&&◌, Option, none, some, List, [], ◌∷◌, ◌++◌, if◌then◌else◌,
}
use vortex_portal.Base.Text.{Text, codes}
use vortex_portal.Base.Json.{Fields, lookup, truthy}
use vortex_portal.Base.Dict.{Dict, get, put, remove}
use vortex_portal.Router.Connection.{
  Bytes, Frame, json, binary, Key, names, no_rid, unhashable, key_of, is_type, of_type,
}

-- What an inbound queue holds.
pub data Event : Type 0 where
  chunk_event : Bytes → Event
  end_event : Event
  abort_event : Text → Event

pub record Session : Type 0 where
  pub sent : List Frame
  pub recv_queues : Dict (List Event)
  pub pending_binary : Key

abbrev pub new_session : Session
new_session = record { sent = []; recv_queues = []; pending_binary = no_rid }

unfoldable pub send_text : Fields → Session → Session
send_text msg s = record s { sent = s.sent ++ json msg ∷ [] }

unfoldable pub send_chunk : Text → Bytes → Session → Session
send_chunk rid bytes s = record s {
  sent = s.sent ++ json (of_type (codes "stream_chunk_header") rid) ∷ binary bytes ∷ [];
}

unfoldable pub open_recv : Text → Session → Session
open_recv rid s = record s { recv_queues = put rid [] s.recv_queues }

unfoldable pub close_recv : Text → Session → Session
close_recv rid s = record s { recv_queues = remove rid s.recv_queues }

-- What a routing method returns: whether it took the frame, or the TypeError of a lookup by a list
-- or an object.
pub data Routed : Type 0 where
  routed : Bool → Session → Routed
  route_error : Routed

abbrev offer : Text → Event → Session → Option (List Event) → Routed
offer rid event s none = routed false s
offer rid event s (some q) =
    routed true (record s { recv_queues = put rid (q ++ event ∷ []) s.recv_queues })

abbrev offer_at : Event → Session → Key → Routed
offer_at event s (names rid) = offer rid event s (get rid s.recv_queues)
offer_at event s no_rid = routed false s
offer_at event s unhashable = route_error

unfoldable pub route_text_frame : Fields → Session → Routed
route_text_frame msg s =
    let rid = lookup (codes "id") msg in
    if is_type (codes "stream_chunk_header") msg && truthy rid
    then routed true (record s { pending_binary = key_of rid })
    else if is_type (codes "stream_end") msg
    then offer_at end_event s (key_of rid)
    else routed false s

unfoldable pub route_binary_frame : Bytes → Session → Routed
route_binary_frame bytes s =
    offer_at (chunk_event bytes) (record s { pending_binary = no_rid }) s.pending_binary

unfoldable pub route : Frame → Session → Routed
unfolding route_text_frame route_binary_frame
route (json msg) s = route_text_frame msg s
route (binary bytes) s = route_binary_frame bytes s
