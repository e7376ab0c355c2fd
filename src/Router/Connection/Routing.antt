-- ===== src/Router/Connection/Routing.antt =====
-- hub/ws_router.py, `AgentConnection`: which waiter a frame reaches.
use vortex_portal.Base.{
  ◌≡◌, ◌≢◌, ◌⊎◌, refl, sym, ap, ◌∙◌, inl, inr, true, Option, none, some, List, [], ◌∷◌, ◌++◌,
  if◌then◌else◌, arith, Option-cases,
}
use mathlib.Core.List.{append-nil, append_assoc}
use vortex_portal.Base.Text.{Text, codes, text_eq, text_eq_iff, text_eq_refl}
use vortex_portal.Base.Json.{text, Fields, field, lookup}
use vortex_portal.Base.Dict.{Dict, get, put, get-put}
use vortex_portal.Router.Connection.{
  Bytes, Connection, Future, pending, result, exception, Item, message, chunk, closing, no_rid,
  of_type, Outcome, done, type_error, enqueue, handle_incoming, handle_incoming_binary,
  close_pending, fail_all, close_all,
}

-- The frames that an agent sends for one chunk, under its lock: the header, then the bytes.
abbrev header : Text → Fields
header r = of_type (codes "stream_chunk_header") r

-- One pair as the hub receives it.
abbrev continue : Outcome → (Connection → Outcome) → Outcome
continue (done c) f = f c
continue type_error f = type_error

pub receive_chunk : Text → Bytes → Connection → Outcome
receive_chunk r bytes c = continue (handle_incoming (header r) c) (handle_incoming_binary bytes)

pub receive_chunks : List (Text × Bytes) → Connection → Outcome
receive_chunks [] c = done c
receive_chunks ((r, bytes) ∷ pairs) c = continue (receive_chunk r bytes c) (receive_chunks pairs)

-- The chunks of one stream, in the order of the frames.
pub own_chunks : Text → List (Text × Bytes) → List Item
own_chunks r [] = []
own_chunks r ((s, bytes) ∷ pairs) =
    let rest = own_chunks r pairs in if text_eq s r then chunk s bytes ∷ rest else rest

-- An open queue with more behind; no queue stays none.
pub queue_append : Option (List Item) → List Item → Option (List Item)
queue_append none items = none
queue_append (some q) items = some (q ++ items)

-- What a pair does: its bytes join the queue of its stream, and the connection is unarmed.
received : Text → Bytes → Connection → Connection
received r bytes c = enqueue r (chunk r bytes) (record c { pending_binary_for_rid = no_rid })

receive_chunk-received :
    (r : Text) (bytes : Bytes) (c : Connection)
    → receive_chunk r bytes c ≡ done (received r bytes c)
unfolding receive_chunk received handle_incoming handle_incoming_binary lookup text_eq
receive_chunk-received r bytes c = refl

get-enqueue :
    (r s : Text) (item : Item) (c : Connection)
    → get s (enqueue r item c).pending_stream ≡ (
        if text_eq r s
        then queue_append (get s c.pending_stream) (item ∷ [])
        else get s c.pending_stream)
unfolding enqueue queue_append
get-enqueue r s item c = elim (Option-cases (get r c.pending_stream)) [
  | inl e ↦ ground (arith, text_eq_iff r s)
  | inr (q, e) ↦ ground (arith, text_eq_iff r s, get-put r s (q ++ item ∷ []) c.pending_stream)
]

enqueue-unary :
    (r : Text) (item : Item) (c : Connection) → (enqueue r item c).pending_unary ≡ c.pending_unary
unfolding enqueue
enqueue-unary r item c = ground arith

queue_append_assoc :
    (o : Option (List Item)) (xs ys : List Item)
    → queue_append (queue_append o xs) ys ≡ queue_append o (xs ++ ys)
unfolding queue_append
queue_append_assoc none xs ys = refl
queue_append_assoc (some q) xs ys = ap some (append_assoc q xs ys)

queue_append-nil : (o : Option (List Item)) → queue_append o [] ≡ o
unfolding queue_append
queue_append-nil none = refl
queue_append-nil (some q) = ap some (append-nil q)

-- Chunks of many streams over one socket never mix: whatever pairs arrive, each open stream's queue
-- grows by exactly the chunks that were sent under its id, in their order, no queue is opened, and
-- no unary waiter is touched.
pub receive_chunks-demultiplex :
    (pairs : List (Text × Bytes)) (c : Connection) (s : Text)
    → (c' : Connection) × (receive_chunks pairs c ≡ done c')
      × (get s c'.pending_stream ≡ queue_append (get s c.pending_stream) (own_chunks s pairs))
      × (c'.pending_unary ≡ c.pending_unary)
unfolding receive_chunks own_chunks received
receive_chunks-demultiplex [] c s = (c, refl, sym (queue_append-nil _), refl)
receive_chunks-demultiplex ((r, bytes) ∷ pairs) c s =
    let (c', e, q, u) = receive_chunks-demultiplex pairs (received r bytes c) s in
    (
      c',
      rw (receive_chunk-received r bytes c) e,
      q
          ∙ ground (
            arith,
            get-enqueue r s (chunk r bytes) (record c { pending_binary_for_rid = no_rid }),
            queue_append_assoc (get s c.pending_stream) (chunk r bytes ∷ []) (own_chunks s pairs),
          ),
      u ∙ enqueue-unary r (chunk r bytes) _,
    )

-- A response that the hub gets: its id, and its other fields behind.
abbrev pub response : Text → Fields → Fields
response r rest = field (codes "type") (text (codes "response")) (field (codes "id") (text r) rest)

-- The first response settles a request, and only it: the waiter of the id gets the message, no
-- other waiter and no stream changes; a second one leaves every waiter as it is, and goes to the
-- stream of the id, if there is one.
pub handle_incoming-response :
    (c : Connection) (r other : Text) (rest again : Fields)
    → get r c.pending_unary ≡ some pending
    → other ≢ r
    → (c' : Connection) × (handle_incoming (response r rest) c ≡ done c')
      × (get r c'.pending_unary ≡ some (result (response r rest)))
      × (get other c'.pending_unary ≡ get other c.pending_unary)
      × (c'.pending_stream ≡ c.pending_stream)
      × (handle_incoming (response r again) c' ≡ done (enqueue r (message (response r again)) c'))
unfolding handle_incoming lookup text_eq
handle_incoming-response c r other rest again e d =
    let c' : Connection = record c {
      pending_unary = put r (result (response r rest)) c.pending_unary;
    } in
    let mine = get-put r r (result (response r rest)) c.pending_unary in
    (
      c',
      ground arith,
      ground (arith, mine, text_eq_refl r),
      ground
          (arith, get-put r other (result (response r rest)) c.pending_unary, text_eq_iff r other),
      refl,
      ground (arith, mine, text_eq_refl r),
    )

fail_all-get : (error : Text) (r : Text) (d : Dict Future) → get r (fail_all error d) ≢ some pending
unfolding fail_all get
fail_all-get error r [] = λ h. cc
fail_all-get error r ((k, pending) ∷ d) = ground (arith, fail_all-get error r d)
fail_all-get error r ((k, result m) ∷ d) = ground (arith, fail_all-get error r d)
fail_all-get error r ((k, exception e) ∷ d) = ground (arith, fail_all-get error r d)

fail_all_lem :
    (error : Text) (r : Text) (d : Dict Future)
    → get r d ≡ some pending
    → get r (fail_all error d) ≡ some (exception (text error))
unfolding fail_all get
fail_all_lem error r [] h = ground arith
fail_all_lem error r ((k, pending) ∷ d) h = ground (arith, fail_all_lem error r d)
fail_all_lem error r ((k, result m) ∷ d) h = ground (arith, fail_all_lem error r d)
fail_all_lem error r ((k, exception e) ∷ d) h = ground (arith, fail_all_lem error r d)

close_all_lem :
    (r : Text) (d : Dict (List Item)) → get r (close_all d) ≡ queue_append (get r d) (closing ∷ [])
unfolding close_all get queue_append
close_all_lem r [] = refl
close_all_lem r ((k, q) ∷ d) = ground (arith, close_all_lem r d)

-- When the connection drops nobody is left waiting: every request that was pending ends with the
-- error, none stays pending, and every open stream gets its end behind what it holds.
pub close_pending-ends_all :
    (c : Connection) (error r : Text)
    → (get r (close_pending error c).pending_unary ≢ some pending)
      × ((get r c.pending_unary ≢ some pending)
          ⊎ (get r (close_pending error c).pending_unary ≡ some (exception (text error))))
      × (get r (close_pending error c).pending_stream
          ≡ queue_append (get r c.pending_stream) (closing ∷ []))
      × ((close_pending error c).closed ≡ true)
unfolding close_pending
close_pending-ends_all c error r = (
  fail_all-get error r c.pending_unary,
  ground (arith, fail_all_lem error r c.pending_unary),
  close_all_lem r c.pending_stream,
  refl,
)
