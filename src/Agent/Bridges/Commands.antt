-- ===== src/Agent/Bridges/Commands.antt =====
-- agent/input_bridge.py: `send_command`, one command and its answer over a fresh connection, and
-- agent/agent.py, `op_input` on a phone. The JSON library is a parameter, `dumps` with the encoding
-- and `loads` with the decoding, none where it raises; `connected` is what `create_connection` gives.
use vortex_portal.Base.{
  ℕ, ◌*◌, ◌<◌, ◌≤◌, ◌≡◌, ◌∙◌, ap, true, false, ◌||◌, Option, none, some, ◌++◌, length, ltb, ◌==◌,
  if◌then◌else◌, arith,
}
use vortex_portal.Base.Text.{Text, codes}
use vortex_portal.Base.Json.{
  Json, null, bool, num, negative, text, arr, obj, end, field, lookup, truthy, or_value,
}
use vortex_portal.Router.Connection.{Bytes}
use vortex_portal.Agent.Requests.{Ran, returned, raised, uncaught}
use vortex_portal.Agent.Bridges.Socket.{Socket, read_exact}
use vortex_portal.Agent.Bridges.Frames.{pack, unpack}
use vortex_portal.Agent.Bridges.Framing.{unpack-pack, read_exact_lem}

abbrev pub max_frame : ℕ
max_frame = 64 * 1024

-- What the call returns, or which exception it raises.
pub data Answer : Type 0 where
  answered : Json → Answer
  value_error : Answer
  not_available : Answer
  connection_error : Answer
  input_error : Json → Answer
  attribute_error : Answer

-- From the decoded response on.
unfoldable pub read_answer : Option Json → Answer
read_answer none = input_error (text (codes "Driver returned malformed JSON"))
read_answer (some (obj resp)) =
    if truthy (lookup (codes "ok") resp)
    then answered (lookup (codes "result") resp)
    else input_error
        (or_value (lookup (codes "error") resp) (text (codes "driver reported failure")))
read_answer (some null) = attribute_error
read_answer (some (bool b)) = attribute_error
read_answer (some (num n)) = attribute_error
read_answer (some (negative n)) = attribute_error
read_answer (some (text t)) = attribute_error
read_answer (some (arr vs)) = attribute_error

module _ (k : Socket) (dumps : Json → Bytes) (loads : Bytes → Option Json) where
  open k use {State, content}

  abbrev read_body : Option (Bytes × State) → Answer
  read_body none = connection_error
  read_body (some (body, s)) = read_answer (loads body)

  abbrev read_response : Option (Bytes × State) → Answer
  read_response none = connection_error
  read_response (some (header, s)) =
      if (unpack header == 0) || ltb max_frame (unpack header)
      then connection_error
      else read_body (read_exact k (unpack header) s)

  abbrev exchange : Option State → Answer
  exchange none = connection_error
  exchange (some s) = read_response (read_exact k 4 s)

  abbrev send_to : (Bytes → State → Option State) → Bytes → Option State → Answer
  send_to sendall payload none = not_available
  send_to sendall payload (some s) = exchange (sendall (pack (length payload) ++ payload) s)

  unfoldable pub send_command : (Bytes → State → Option State) → Option State → Json → Answer
  unfolding read_answer
  send_command sendall connected command =
      let payload = dumps command in
      if ltb max_frame (length payload) then value_error else send_to sendall payload connected

  -- How `op_input` ends on a phone; `messages` are the texts of the exceptions that it passes on.
  abbrev pub conclude_input : (Json → Text) → Answer → Ran
  conclude_input messages (answered null) = returned (obj (field (codes "acked") (bool true) end))
  conclude_input messages (answered (bool b)) = returned (bool b)
  conclude_input messages (answered (num n)) = returned (num n)
  conclude_input messages (answered (negative n)) = returned (negative n)
  conclude_input messages (answered (text t)) = returned (text t)
  conclude_input messages (answered (arr vs)) = returned (arr vs)
  conclude_input messages (answered (obj fs)) = returned (obj fs)
  conclude_input messages value_error = raised (messages (text (codes "ValueError")))
  conclude_input messages not_available = raised (messages (text (codes "RuntimeError")))
  conclude_input messages connection_error = raised (messages (text (codes "ConnectionError")))
  conclude_input messages (input_error e) = raised (messages e)
  conclude_input messages attribute_error = uncaught

  read_response-answers :
      (s : State) (body more : Bytes)
      → content s ≡ pack (length body) ++ (body ++ more)
      → 0 < length body
      → length body ≤ max_frame
      → read_response (read_exact k 4 s) ≡ read_answer (loads body)
  unfolding pack
  read_response-answers s body more e pos cap =
      let n = length body in
      let u : unpack (pack n) ≡ n = unpack-pack n (omega (arith, cap)) in
      let (s1, got, left) = read_exact_lem k (pack n) (body ++ more) s e in
      let (s2, whole, rest) = read_exact_lem k body more s1 left in
      let z : ((unpack (pack n) == 0) || ltb max_frame (unpack (pack n))) ≡ false =
        ground (arith, u) in
      let all : read_exact k (unpack (pack n)) s1 ≡ some (body, s2) =
        ap (λ m. read_exact k m s1) u ∙ whole in
      ap read_response got ∙ rw z (ap read_body all)

  -- A command that fits, sent over a connection whose peer answers with one frame, gives what the
  -- frame says, however the answer is cut and whatever is behind it; the peer has been sent the
  -- command behind its length.
  pub send_command-answers :
      (sendall : Bytes → State → Option State) (s s' : State) (command : Json) (body more : Bytes)
      → length (dumps command) ≤ max_frame
      → sendall (pack (length (dumps command)) ++ dumps command) s ≡ some s'
      → content s' ≡ pack (length body) ++ (body ++ more)
      → 0 < length body
      → length body ≤ max_frame
      → send_command sendall (some s) command ≡ read_answer (loads body)
  unfolding send_command
  send_command-answers sendall s s' command body more fits sent e pos cap =
      let small : ltb max_frame (length (dumps command)) ≡ false = ground arith in
      rw small (ap exchange sent ∙ read_response-answers s' body more e pos cap)
