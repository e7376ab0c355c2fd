-- ===== src/Agent/Requests.antt =====
-- agent/agent.py, `_handle_request`: one request, answered. The three tables of operations are
-- parameters, and `show` is the text that an f-string makes of a value.
pub mod Answers
use vortex_portal.Base.{Bool, true, false, Option, none, some, List, [], ◌∷◌, ◌++◌}
use vortex_portal.Base.Text.{Text, codes}
use vortex_portal.Base.Json.{Json, bool, text, obj, Fields, end, field, lookup, or_value}
use vortex_portal.Base.Dict.{Dict, get}
use vortex_portal.Router.Connection.{Key, names, no_rid, unhashable, key_of}
use vortex_portal.Agent.Session.{Session, send_text}

-- How an operation ends: a value, one of the exceptions of OP_ERRORS as its message, or another
-- exception.
pub data Ran : Type 0 where
  returned : Json → Ran
  raised : Text → Ran
  uncaught : Ran

unfoldable pub ok_response : Json → Json → Fields
ok_response rid value =
    field (codes "type") (text (codes "response"))
      (field (codes "id") rid (field (codes "ok") (bool true) (field (codes "result") value end)))

unfoldable pub error_response : Json → Text → Fields
error_response rid error = field (codes "type") (text (codes "response")) (
    field (codes "id") rid
      (field (codes "ok") (bool false) (field (codes "error") (text error) end)))

-- The session after the request, or nothing when an exception left the handler.
abbrev pub conclude : Json → Session → Ran → Option Session
conclude rid s (returned value) = some (send_text (ok_response rid value) s)
conclude rid s (raised error) = some (send_text (error_response rid error) s)
conclude rid s uncaught = none

abbrev pub conclude_stream : Json → Session → Ran → Option Session
conclude_stream rid s (returned value) = some s
conclude_stream rid s (raised error) = some (send_text (error_response rid error) s)
conclude_stream rid s uncaught = none

module _ (unary_ops : Dict (Json → Ran)) (stream_ops : Dict (Session → Json → Json → Session × Ran))
    (recv_ops : Dict (Session → Json → Json → Session × Ran)) (show : Json → Text) where
  abbrev run_recv :
      Json → Json → Json → Session → Option (Session → Json → Json → Session × Ran) → Option Session
  run_recv op rid args s none =
      some (send_text (error_response rid (codes "unknown op: " ++ show op)) s)
  run_recv op rid args s (some f) = conclude rid (f s rid args).0 (f s rid args).1

  abbrev run_stream :
      Json
      → Text
      → Json
      → Json
      → Session
      → Option (Session → Json → Json → Session × Ran)
      → Option Session
  run_stream op name rid args s none = run_recv op rid args s (get name recv_ops)
  run_stream op name rid args s (some f) = conclude_stream rid (f s rid args).0 (f s rid args).1

  abbrev run_unary : Json → Text → Json → Json → Session → Option (Json → Ran) → Option Session
  run_unary op name rid args s none = run_stream op name rid args s (get name stream_ops)
  run_unary op name rid args s (some f) = conclude rid s (f args)

  abbrev dispatch : Json → Json → Json → Session → Key → Option Session
  dispatch op rid args s (names name) = run_unary op name rid args s (get name unary_ops)
  dispatch op rid args s no_rid = run_recv op rid args s none
  dispatch op rid args s unhashable = none

  unfoldable pub handle_request : Fields → Session → Option Session
  unfolding ok_response error_response send_text
  handle_request msg s =
      let op = lookup (codes "op") msg in
      dispatch op (lookup (codes "id") msg) (or_value (lookup (codes "args") msg) (obj end)) s
        (key_of op)
