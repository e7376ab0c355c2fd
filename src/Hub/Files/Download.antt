-- ===== src/Hub/Files/Download.antt =====
-- hub/app.py, `_stream_file_from_agent`, and agent/agent.py, `op_read_file_stream`: the two ends of
-- a download.
use vortex_portal.Base.{
  ℕ, zero, suc, ◌-◌, ◌≤◌, ◌≡◌, refl, sym, ap, ◌∙◌, Option, none, some, List, [], ◌∷◌, ◌++◌, length,
  take, drop, take-append-drop, arith,
}
use mathlib.Core.List.{append-nil, append_assoc}
use vortex_portal.Base.Text.{Text, codes, text_eq, text_eq_refl}
use vortex_portal.Base.Json.{Json, Fields, lookup}
use vortex_portal.Base.Dict.{get, put, get-put}
use vortex_portal.Router.Connection.{
  Bytes, Connection, Frame, json, binary, Item, message, chunk, of_type, start_stream,
  handle_incoming, handle_incoming_binary, done, take_turn, no_rid, names, enqueue,
}
use vortex_portal.Agent.Session.{Session, send_text, send_chunk}
use vortex_portal.Agent.Files.{
  Entry, file, chunk_size, read_chunks, send_each, stream_start, safe_resolve, op_read_file_stream,
}
use vortex_portal.Hub.Files.{body_of, receive_frame, receive_all}

-- b"".join(chunks)
unfoldable pub joined : List Bytes → Bytes
joined [] = []
joined (bytes ∷ chunks) = bytes ++ joined chunks

length-drop : (n : ℕ) (xs : Bytes) → length (drop n xs) ≡ length xs - n
length-drop zero xs = omega arith
length-drop (suc n) [] = omega arith
length-drop (suc n) (x ∷ xs) = omega (arith, length-drop n xs)

-- The chunks of a file are the file.
read_chunks-joined :
    (fuel : ℕ) (content : Bytes)
    → length content ≤ fuel
    → joined (read_chunks fuel content) ≡ content
unfolding read_chunks joined
read_chunks-joined zero [] h = refl
read_chunks-joined zero (b ∷ bs) h = absurd (omega arith)
read_chunks-joined (suc fuel) [] h = refl
read_chunks-joined (suc fuel) (b ∷ bs) h =
    ap (λ t. take chunk_size (b ∷ bs) ++ t)
      (read_chunks-joined fuel (drop chunk_size (b ∷ bs))
        (omega (arith, length-drop chunk_size (b ∷ bs))))
    ∙ take-append-drop chunk_size (b ∷ bs)

-- The frames of the chunks.
unfoldable pub chunk_pairs : Text → List Bytes → List Frame
chunk_pairs rid [] = []
chunk_pairs rid (bytes ∷ chunks) =
    json (of_type (codes "stream_chunk_header") rid) ∷ binary bytes ∷ chunk_pairs rid chunks

send_each-sent :
    (rid : Text) (chunks : List Bytes) (s : Session)
    → (send_each rid chunks s).sent ≡ s.sent ++ chunk_pairs rid chunks
unfolding send_each chunk_pairs send_chunk
send_each-sent rid [] s = sym (append-nil s.sent)
send_each-sent rid (bytes ∷ chunks) s =
    send_each-sent rid chunks _
    ∙ append_assoc s.sent (json (of_type (codes "stream_chunk_header") rid) ∷ binary bytes ∷ [])
        (chunk_pairs rid chunks)

unfoldable items_of : Text → List Bytes → List Item
items_of rid [] = []
items_of rid (bytes ∷ chunks) = chunk rid bytes ∷ items_of rid chunks

-- The connection after a message or a chunk for an open stream.
abbrev grown : Text → List Item → Item → Connection → Connection
grown rid q item c = record c { pending_stream = put rid (q ++ item ∷ []) c.pending_stream }

abbrev unarmed : Connection → Connection
unarmed c = record c { pending_binary_for_rid = no_rid }

receive-start :
    (rid content_type : Text) (size : ℕ) (c : Connection) (q : List Item)
    → get rid c.pending_stream ≡ some q
    → receive_frame (json (stream_start rid size content_type)) c
      ≡ done (grown rid q (message (stream_start rid size content_type)) c)
unfolding receive_frame handle_incoming lookup text_eq stream_start enqueue
receive-start rid content_type size c q h = rw h refl

receive-end :
    (rid : Text) (c : Connection) (q : List Item)
    → get rid c.pending_stream ≡ some q
    → receive_frame (json (of_type (codes "stream_end") rid)) c
      ≡ done (grown rid q (message (of_type (codes "stream_end") rid)) c)
unfolding receive_frame handle_incoming lookup text_eq enqueue
receive-end rid c q h = rw h refl

receive-header :
    (rid : Text) (c : Connection)
    → receive_frame (json (of_type (codes "stream_chunk_header") rid)) c
      ≡ done (record c { pending_binary_for_rid = names rid })
unfolding receive_frame handle_incoming lookup text_eq
receive-header rid c = refl

receive-bytes :
    (rid : Text) (bytes : Bytes) (c : Connection) (q : List Item)
    → get rid c.pending_stream ≡ some q
    → receive_frame (binary bytes) (record c { pending_binary_for_rid = names rid })
      ≡ done (grown rid q (chunk rid bytes) (unarmed c))
unfolding receive_frame handle_incoming_binary enqueue
receive-bytes rid bytes c q h = rw h refl

grown-queue :
    (rid : Text) (q : List Item) (item : Item) (c : Connection)
    → get rid (grown rid q item c).pending_stream ≡ some (q ++ item ∷ [])
grown-queue rid q item c =
    get-put rid rid (q ++ item ∷ []) c.pending_stream ∙ rw (text_eq_refl rid) refl

receive_all-chunks :
    (rid : Text) (chunks : List Bytes) (tail : List Frame) (c : Connection) (q : List Item)
    → get rid c.pending_stream ≡ some q
    → (c' : Connection) × (receive_all (chunk_pairs rid chunks ++ tail) c ≡ receive_all tail c')
      × (get rid c'.pending_stream ≡ some (q ++ items_of rid chunks))
unfolding receive_all chunk_pairs items_of
receive_all-chunks rid [] tail c q h = (c, refl, h ∙ ap some (sym (append-nil q)))
receive_all-chunks rid (bytes ∷ chunks) tail c q h =
    let c1 = grown rid q (chunk rid bytes) (unarmed c) in
    let (c', e, g) =
      receive_all-chunks rid chunks tail c1 (q ++ chunk rid bytes ∷ [])
        (grown-queue rid q (chunk rid bytes) (unarmed c)) in
    (
      c',
      rw (receive-header rid c, receive-bytes rid bytes c q h) e,
      g ∙ ap some (append_assoc q (chunk rid bytes ∷ []) (items_of rid chunks)),
    )

body_of-items :
    (b64decode : Json → Bytes) (rid : Text) (chunks : List Bytes)
    → body_of b64decode (items_of rid chunks ++ message (of_type (codes "stream_end") rid) ∷ [])
      ≡ joined chunks
unfolding body_of items_of joined take_turn lookup text_eq
body_of-items b64decode rid [] = refl
body_of-items b64decode rid (bytes ∷ chunks) =
    ap (λ t. bytes ++ t) (body_of-items b64decode rid chunks)

body_of-start :
    (b64decode : Json → Bytes) (rid content_type : Text) (size : ℕ) (items : List Item)
    → body_of b64decode (message (stream_start rid size content_type) ∷ items)
      ≡ body_of b64decode items
unfolding body_of take_turn lookup text_eq stream_start
body_of-start b64decode rid content_type size items = refl

abbrev pub queue_of : Option (List Item) → List Item
queue_of none = []
queue_of (some q) = q

module _ (root : List Text) (resolved : Text → Text) (parts : Text → List Text)
    (entry : Text → Entry) (guess_type : Text → Text) (b64decode : Json → Bytes) where
  -- The frames that the agent sends for a file.
  unfoldable pub file_frames : Text → Text → Bytes → List Frame
  unfolding chunk_pairs stream_start read_chunks
  file_frames rid path content =
      json (stream_start rid (length content) (guess_type path))
      ∷ (chunk_pairs rid (read_chunks (length content) content)
          ++ json (of_type (codes "stream_end") rid) ∷ [])

  stream_file-sent :
      (rid path : Text) (content : Bytes) (agent : Session)
      → (send_text (of_type (codes "stream_end") rid) (
          send_each rid
            (read_chunks (length content) content)
            (send_text (stream_start rid (length content) (guess_type path)) agent))).sent
        ≡ agent.sent ++ file_frames rid path content
  unfolding file_frames send_text
  stream_file-sent rid path content agent =
      let start = json (stream_start rid (length content) (guess_type path)) in
      let pairs = chunk_pairs rid (read_chunks (length content) content) in
      let last = json (of_type (codes "stream_end") rid) ∷ [] in
      ap (λ t. t ++ last)
        (send_each-sent rid (read_chunks (length content) content)
          (send_text (stream_start rid (length content) (guess_type path)) agent))
      ∙ append_assoc (agent.sent ++ start ∷ []) pairs last
      ∙ append_assoc agent.sent (start ∷ []) (pairs ++ last)

  op_read_file_stream-file :
      (rid rel path : Text) (content : Bytes) (agent : Session)
      → safe_resolve root resolved parts entry guess_type rel ≡ some path
      → entry path ≡ file content
      → (op_read_file_stream root resolved parts entry guess_type rid rel agent).0
        ≡ send_text (of_type (codes "stream_end") rid) (
            send_each rid
              (read_chunks (length content) content)
              (send_text (stream_start rid (length content) (guess_type path)) agent))
  unfolding op_read_file_stream
  op_read_file_stream-file rid rel path content agent safe here = rw (safe, here) refl

  -- What the browser gets is the file: for a path inside the root that names a file, the agent
  -- sends the announcement with the size, the chunks and the end; the hub, which has opened the
  -- stream of that id, takes every one of these frames, and the body that it streams to the
  -- browser is exactly the file's bytes, whatever their number.
  pub download_round_trip :
      (rid rel path op : Text) (args : Fields) (content : Bytes) (agent : Session)
      (hub : Connection)
      → safe_resolve root resolved parts entry guess_type rel ≡ some path
      → entry path ≡ file content
      → (((op_read_file_stream root resolved parts entry guess_type rid rel agent).0).sent
          ≡ agent.sent ++ file_frames rid path content)
        × (hub' : Connection) × (receive_all
              (file_frames rid path content)
              (start_stream rid op args hub)
            ≡ done hub')
        × (body_of b64decode (queue_of (get rid hub'.pending_stream)) ≡ content)
  unfolding op_read_file_stream file_frames receive_all start_stream send_text
  download_round_trip rid rel path op args content agent hub safe here =
      let first = message (stream_start rid (length content) (guess_type path)) in
      let chunks = read_chunks (length content) content in
      let c0 = start_stream rid op args hub in
      let q0 : get rid c0.pending_stream ≡ some [] =
        get-put rid rid [] hub.pending_stream ∙ rw (text_eq_refl rid) refl in
      let c1 = grown rid [] first c0 in
      let (c2, e, q2) =
        receive_all-chunks rid chunks (json (of_type (codes "stream_end") rid) ∷ []) c1 (first ∷ [])
          (grown-queue rid [] first c0) in
      let last = message (of_type (codes "stream_end") rid) in
      let c3 = grown rid (first ∷ items_of rid chunks) last c2 in
      (
        ap (λ (s : Session). s.sent) (op_read_file_stream-file rid rel path content agent safe here)
            ∙ stream_file-sent rid path content agent,
        c3,
        rw (receive-start rid (guess_type path) (length content) c0 [] q0)
            (e ∙ rw (receive-end rid c2 (first ∷ items_of rid chunks) q2) refl),
        rw (grown-queue rid (first ∷ items_of rid chunks) last c2) (
            body_of-start b64decode rid (guess_type path) (length content)
              (items_of rid chunks ++ last ∷ [])
            ∙ body_of-items b64decode rid chunks
            ∙ read_chunks-joined (length content) content (omega arith)),
      )
