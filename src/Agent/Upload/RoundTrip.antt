-- ===== src/Agent/Upload/RoundTrip.antt =====
-- hub/ws_router.py, `upload`, and agent/agent.py, `op_write_file`: the two ends of an upload.
use vortex_portal.Base.{
  ℕ, ◌+◌, ◌≡◌, refl, sym, ap, ◌∙◌, true, Option, none, some, List, [], ◌∷◌, ◌++◌, length,
  length-append, arith,
}
use mathlib.Core.List.{append-nil, append_assoc}
use vortex_portal.Base.Text.{Text, codes, text_eq, text_eq_refl}
use vortex_portal.Base.Json.{Fields, lookup}
use vortex_portal.Base.Dict.{Dict, get, put, remove, get-put}
use vortex_portal.Router.Connection.{
  Bytes, Frame, json, binary, Connection, of_type, send_chunks, start_request, start_upload, no_rid,
  names,
}
use vortex_portal.Agent.Session.{
  Session, Event, chunk_event, end_event, Routed, routed, route_error, route, open_recv,
}
use vortex_portal.Agent.Upload.{saved, finished, drain, part_of, finish_write}

-- b"".join(chunks)
unfoldable pub join : List Bytes → Bytes
join [] = []
join (bytes ∷ chunks) = bytes ++ join chunks

-- The frames of an upload behind its request.
unfoldable pub chunk_frames : Text → List Bytes → List Frame
chunk_frames rid [] = []
chunk_frames rid ([] ∷ chunks) = chunk_frames rid chunks
chunk_frames rid ((b ∷ bs) ∷ chunks) =
    json (of_type (codes "stream_chunk_header") rid) ∷ binary (b ∷ bs) ∷ chunk_frames rid chunks

unfoldable pub upload_frames : Text → List Bytes → List Frame
unfolding chunk_frames
upload_frames rid chunks = chunk_frames rid chunks ++ json (of_type (codes "stream_end") rid) ∷ []

-- The agent's receiver, frame by frame; none if a frame raises.
abbrev settle : Routed → Option Session
settle (routed handled s) = some s
settle route_error = none

abbrev chain : Option Session → (Session → Option Session) → Option Session
chain none f = none
chain (some s) f = f s

unfoldable pub route_all : List Frame → Session → Option Session
route_all [] s = some s
route_all (frame ∷ frames) s = chain (settle (route frame s)) (route_all frames)

unfoldable events : List Bytes → List Event
events [] = []
events ([] ∷ chunks) = events chunks
events ((b ∷ bs) ∷ chunks) = chunk_event (b ∷ bs) ∷ events chunks

send_chunks_lem :
    (rid : Text) (chunks : List Bytes) (c : Connection)
    → (send_chunks rid chunks c).sent ≡ c.sent ++ chunk_frames rid chunks
unfolding send_chunks chunk_frames
send_chunks_lem rid [] c = sym (append-nil c.sent)
send_chunks_lem rid ([] ∷ chunks) c = send_chunks_lem rid chunks c
send_chunks_lem rid ((b ∷ bs) ∷ chunks) c =
    send_chunks_lem rid chunks _
    ∙ append_assoc c.sent (json (of_type (codes "stream_chunk_header") rid) ∷ binary (b ∷ bs) ∷ [])
        (chunk_frames rid chunks)

drain-events :
    (chunks : List Bytes) (file : Bytes) (n : ℕ)
    → drain (events chunks ++ end_event ∷ []) file n
      ≡ finished (file ++ join chunks) (n + length (join chunks))
unfolding drain events join
drain-events [] file n = rw (append-nil file) (ground arith)
drain-events ([] ∷ chunks) file n = drain-events chunks file n
drain-events ((b ∷ bs) ∷ chunks) file n =
    drain-events chunks (file ++ b ∷ bs) (n + length (b ∷ bs))
    ∙ rw (append_assoc file (b ∷ bs) (join chunks), length-append (b ∷ bs) (join chunks))
        (ground arith)

-- The session that a header leaves, and the one that its bytes leave.
abbrev armed : Text → Session → Session
armed rid s = record s { pending_binary = names rid }

abbrev filled : Text → Bytes → List Event → Session → Session
filled rid bytes q s = record s {
  recv_queues = put rid (q ++ chunk_event bytes ∷ []) s.recv_queues;
  pending_binary = no_rid;
}

route-header :
    (c : ℕ) (cs : Text) (s : Session)
    → route (json (of_type (codes "stream_chunk_header") (c ∷ cs))) s
      ≡ routed true (armed (c ∷ cs) s)
unfolding route lookup text_eq
route-header c cs s = refl

route-binary :
    (rid : Text) (bytes : Bytes) (s : Session) (q : List Event)
    → get rid s.recv_queues ≡ some q
    → route (binary bytes) (armed rid s) ≡ routed true (filled rid bytes q s)
unfolding route
route-binary rid bytes s q h = rw h refl

route_all-chunks :
    (c : ℕ) (cs : Text) (chunks : List Bytes) (tail : List Frame) (s : Session) (q : List Event)
    → get (c ∷ cs) s.recv_queues ≡ some q
    → (s' : Session) × (route_all (chunk_frames (c ∷ cs) chunks ++ tail) s ≡ route_all tail s')
      × (get (c ∷ cs) s'.recv_queues ≡ some (q ++ events chunks))
unfolding route_all chunk_frames events
route_all-chunks c cs [] tail s q h = (s, refl, h ∙ ap some (sym (append-nil q)))
route_all-chunks c cs ([] ∷ chunks) tail s q h = route_all-chunks c cs chunks tail s q h
route_all-chunks c cs ((b ∷ bs) ∷ chunks) tail s q h =
    let r = c ∷ cs in
    let s2 = filled r (b ∷ bs) q s in
    let got : get r s2.recv_queues ≡ some (q ++ chunk_event (b ∷ bs) ∷ []) =
      ground (arith, get-put r r (q ++ chunk_event (b ∷ bs) ∷ []) s.recv_queues, text_eq_refl r) in
    let (s', e, g) = route_all-chunks c cs chunks tail s2 (q ++ chunk_event (b ∷ bs) ∷ []) got in
    (
      s',
      rw (route-header c cs s, route-binary r (b ∷ bs) s q h) e,
      g ∙ ap some (append_assoc q (chunk_event (b ∷ bs) ∷ []) (events chunks)),
    )

abbrev ended : Text → List Event → Session → Session
ended rid q s = record s { recv_queues = put rid (q ++ end_event ∷ []) s.recv_queues }

route-end :
    (c : ℕ) (cs : Text) (s : Session) (q : List Event)
    → get (c ∷ cs) s.recv_queues ≡ some q
    → route (json (of_type (codes "stream_end") (c ∷ cs))) s ≡ routed true (ended (c ∷ cs) q s)
unfolding route lookup text_eq
route-end c cs s q h = rw h refl

-- The loop of `op_write_file` on a queue that holds the chunks and the end.
finish_write-events :
    (rel path rid : Text) (s : Session) (files : Dict Bytes) (chunks : List Bytes)
    → get rid s.recv_queues ≡ some (events chunks ++ end_event ∷ [])
    → (finish_write rel path rid (some (length (join chunks))) s files).0
      ≡ (saved rel (length (join chunks)), put path (join chunks) (remove (part_of path) files))
unfolding finish_write
finish_write-events rel path rid s files chunks h = rw (h, drain-events chunks [] 0) (ground arith)

-- What the hub uploads is what the device stores: the frames that `upload` sends behind its request,
-- received by an agent that has opened the queue of the same id, are all routed, and
-- `op_write_file` then reports the number of bytes that the chunks have together, raises no warning
-- for that size, and leaves exactly the chunks' bytes, in their order, at the path.
pub upload_round_trip :
    (hub : Connection) (c : ℕ) (cs op rel path : Text) (args : Fields) (chunks : List Bytes)
    (agent : Session) (files : Dict Bytes)
    → ((start_upload (c ∷ cs) op args chunks hub).sent
        ≡ (start_request (c ∷ cs) op args hub).sent ++ upload_frames (c ∷ cs) chunks)
      × (agent' : Session) × (route_all (upload_frames (c ∷ cs) chunks) (open_recv (c ∷ cs) agent)
          ≡ some agent')
      × ((finish_write rel path (c ∷ cs) (some (length (join chunks))) agent' files).0 ≡ (
        saved rel (length (join chunks)),
        put path (join chunks) (remove (part_of path) files),
      ))
unfolding start_upload upload_frames open_recv route_all finish_write
upload_round_trip hub c cs op rel path args chunks agent files =
    let rid = c ∷ cs in
    let opened : get rid (open_recv rid agent).recv_queues ≡ some [] =
      ground (arith, get-put rid rid [] agent.recv_queues, text_eq_refl rid) in
    let (s1, e, q1) =
      route_all-chunks c cs chunks (json (of_type (codes "stream_end") rid) ∷ [])
        (open_recv rid agent) [] opened in
    let s2 = ended rid (events chunks) s1 in
    let q2 : get rid s2.recv_queues ≡ some (events chunks ++ end_event ∷ []) =
      ground (
        arith,
        get-put rid rid (events chunks ++ end_event ∷ []) s1.recv_queues,
        text_eq_refl rid,
      ) in
    (
      rw (send_chunks_lem rid chunks (start_request rid op args hub)) (
          append_assoc (start_request rid op args hub).sent (chunk_frames rid chunks)
            (json (of_type (codes "stream_end") rid) ∷ [])),
      s2,
      e ∙ rw (route-end c cs s1 (events chunks) q1) refl,
      finish_write-events rel path rid s2 files chunks q2,
    )
