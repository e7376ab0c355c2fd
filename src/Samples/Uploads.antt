-- ===== src/Samples/Uploads.antt =====
-- A request and an upload from the hub to an agent, at small inputs.
use vortex_portal.Base.{◌≡◌, refl, some, List, [], ◌∷◌, ◌++◌, length, arith}
use vortex_portal.Base.Text.{Text, codes, text_eq}
use vortex_portal.Base.Json.{Json, num, text, end}
use vortex_portal.Base.Dict.{get, put, remove}
use vortex_portal.Router.Connection.{
  Bytes, Connection, new_connection, start_upload, start_request, json, request_frame, done,
  handle_incoming, finish_request,
}
use vortex_portal.Agent.Session.{Session, new_session, open_recv}
use vortex_portal.Agent.Upload.{saved, part_of, finish_write}
use vortex_portal.Agent.Upload.RoundTrip
use vortex_portal.Agent.Upload.RoundTrip.{join, upload_frames, route_all}
use vortex_portal.Agent.Requests.{Ran, returned, handle_request}
use vortex_portal.Agent.Requests.Answers
use vortex_portal.Agent.Requests.Answers.{response_of, reply_of}

abbrev hub : Connection
hub = new_connection (codes "d1") 1 (codes "phone")

abbrev parts : List Bytes
parts = (1 ∷ 2 ∷ []) ∷ [] ∷ (3 ∷ []) ∷ []

upload_round_trip_example :
    ((start_upload (codes "r1") (codes "write_file") end parts hub).sent
      ≡ (start_request (codes "r1") (codes "write_file") end hub).sent
        ++ upload_frames (codes "r1") parts)
    × (agent' : Session) × (route_all
          (upload_frames (codes "r1") parts)
          (open_recv (codes "r1") new_session)
        ≡ some agent')
    × ((finish_write
          (codes "a")
          (codes "/home/a")
          (codes "r1")
          (some (length (join parts)))
          agent'
          []).0
        ≡ (
          saved (codes "a") (length (join parts)),
          put (codes "/home/a") (join parts) (remove (part_of (codes "/home/a")) []),
        ))
upload_round_trip_example =
    RoundTrip.upload_round_trip hub b'r' (codes "1") (codes "write_file") (codes "a")
      (codes "/home/a") end parts new_session []

abbrev count : Json → Ran
count v = returned (num 3)

abbrev no_op : Session → Json → Json → Session × Ran
no_op s rid args = (s, returned (num 0))

abbrev shown : Json → Text
shown v = codes "?"

request_round_trip_example :
    ((start_request (codes "r1") (codes "count") end hub).sent
      ≡ hub.sent ++ json (request_frame (codes "r1") (codes "count") end) ∷ [])
    × (handle_request
          ((codes "count", count) ∷ [])
          []
          ((codes "put", no_op) ∷ [])
          shown
          (request_frame (codes "r1") (codes "count") end)
          new_session
        ≡ some (record new_session {
          sent = [] ++ json (response_of (text (codes "r1")) (returned (num 3))) ∷ [];
        }))
    × (hub' : Connection) × (handle_incoming
          (response_of (text (codes "r1")) (returned (num 3)))
          (start_request (codes "r1") (codes "count") end hub)
        ≡ done hub')
    × ((finish_request (codes "r1") hub').0 ≡ reply_of (returned (num 3)))
unfolding get text_eq
request_round_trip_example =
    Answers.request_round_trip ((codes "count", count) ∷ []) [] ((codes "put", no_op) ∷ []) shown
      (codes "r1") (codes "count") end count (returned (num 3)) hub new_session refl refl
      (ground arith)
