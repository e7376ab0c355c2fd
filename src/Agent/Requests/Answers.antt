-- ===== src/Agent/Requests/Answers.antt =====
-- hub/ws_router.py, `request`, and agent/agent.py, `_handle_request`: the two ends of a request.
use vortex_portal.Base.{◌≡◌, ◌≢◌, refl, some, [], ◌∷◌, ◌++◌, arith}
use vortex_portal.Base.Text.{Text, codes, text_eq, text_eq_refl, or_else}
use vortex_portal.Base.Json.{Json, text, obj, Fields, field, end, lookup, or_value}
use vortex_portal.Base.Dict.{Dict, get, put, get-put}
use vortex_portal.Router.Connection.{
  Connection, pending, result, json, Reply, value, agent_error, timeout, done, request_frame,
  start_request, finish_request, handle_incoming, read_reply,
}
use vortex_portal.Agent.Session.{Session, send_text}
use vortex_portal.Agent.Requests.{
  Ran, returned, raised, uncaught, ok_response, error_response, handle_request, conclude,
}

-- The frame with which the agent ends a unary operation, and what the hub's caller then gets.
abbrev pub response_of : Json → Ran → Fields
response_of rid (returned v) = ok_response rid v
response_of rid (raised e) = error_response rid e
response_of rid uncaught = end

abbrev pub reply_of : Ran → Reply
reply_of (returned v) = value (or_value v (obj end))
reply_of (raised e) = agent_error (text (or_else e (codes "agent error")))
reply_of uncaught = timeout

handle_incoming-answer :
    (rid : Text) (ran : Ran) (c : Connection)
    → ran ≢ uncaught
    → get rid c.pending_unary ≡ some pending
    → handle_incoming (response_of (text rid) ran) c
      ≡ done (record c {
        pending_unary = put rid (result (response_of (text rid) ran)) c.pending_unary;
      })
unfolding handle_incoming lookup text_eq ok_response error_response
handle_incoming-answer rid (returned v) c u h = rw h refl
handle_incoming-answer rid (raised e) c u h = rw h refl
handle_incoming-answer rid uncaught c u h = elim (u refl) [ ]

read_reply-response :
    (rid : Text) (ran : Ran)
    → ran ≢ uncaught
    → read_reply (response_of (text rid) ran) ≡ reply_of ran
unfolding read_reply lookup text_eq ok_response error_response
read_reply-response rid (returned v) u = refl
read_reply-response rid (raised []) u = refl
read_reply-response rid (raised (c ∷ e)) u = refl
read_reply-response rid uncaught u = elim (u refl) [ ]

or_value-args : (args : Fields) → or_value (obj args) (obj end) ≡ obj args
or_value-args end = refl
or_value-args (field k v args) = refl

conclude-unary :
    (rid : Text) (ran : Ran) (s : Session)
    → ran ≢ uncaught
    → conclude (text rid) s ran
      ≡ some (record s { sent = s.sent ++ json (response_of (text rid) ran) ∷ [] })
unfolding send_text
conclude-unary rid (returned v) s u = refl
conclude-unary rid (raised e) s u = refl
conclude-unary rid uncaught s u = elim (u refl) [ ]

module _ (unary_ops : Dict (Json → Ran)) (stream_ops : Dict (Session → Json → Json → Session × Ran))
    (recv_ops : Dict (Session → Json → Json → Session × Ran)) (show : Json → Text) where
  handle_request-unary :
      (rid op : Text) (args : Fields) (f : Json → Ran) (ran : Ran) (s : Session)
      → get op unary_ops ≡ some f
      → f (obj args) ≡ ran
      → ran ≢ uncaught
      → handle_request unary_ops stream_ops recv_ops show (request_frame rid op args) s
        ≡ some (record s { sent = s.sent ++ json (response_of (text rid) ran) ∷ [] })
  unfolding handle_request request_frame lookup text_eq
  handle_request-unary rid op args f ran s h e u =
      rw (or_value-args args, h, e) (conclude-unary rid ran s u)

  -- A request to a unary operation and its answer, from end to end: the hub sends one frame and
  -- waits; the agent runs the operation on the arguments and sends one frame back; that frame
  -- settles the wait, and the caller gets the operation's value, or the `AgentError` with the
  -- message that the operation raised, unless the operation raised outside OP_ERRORS.
  pub request_round_trip :
      (rid op : Text) (args : Fields) (f : Json → Ran) (ran : Ran) (hub : Connection)
      (agent : Session)
      → get op unary_ops ≡ some f
      → f (obj args) ≡ ran
      → ran ≢ uncaught
      → ((start_request rid op args hub).sent ≡ hub.sent ++ json (request_frame rid op args) ∷ [])
        × (handle_request unary_ops stream_ops recv_ops show (request_frame rid op args) agent
            ≡ some (record agent { sent = agent.sent ++ json (response_of (text rid) ran) ∷ [] }))
        × (hub' : Connection) × (handle_incoming
              (response_of (text rid) ran)
              (start_request rid op args hub)
            ≡ done hub')
        × ((finish_request rid hub').0 ≡ reply_of ran)
  unfolding start_request finish_request
  request_round_trip rid op args f ran hub agent h e u =
      let c = start_request rid op args hub in
      let waiting : get rid c.pending_unary ≡ some pending =
        ground (arith, get-put rid rid pending hub.pending_unary, text_eq_refl rid) in
      let msg = response_of (text rid) ran in
      (
        refl,
        handle_request-unary rid op args f ran agent h e u,
        record c { pending_unary = put rid (result msg) c.pending_unary },
        handle_incoming-answer rid ran c u waiting,
        rw (get-put rid rid (result msg) c.pending_unary, text_eq_refl rid)
            (read_reply-response rid ran u),
      )
