-- ===== src/Samples/Streams.antt =====
-- A socket that gives two bytes at most at a time, and a file of an agent.
use vortex_portal.Base.{
  ℕ, zero, suc, true, ◌≡◌, ◌≤◌, ◌<◌, refl, sym, inl, inr, Option, some, List, [], ◌∷◌, ◌++◌, length,
  take, drop, min, arith, length-take, take-append-drop, if◌then◌else◌,
}
use vortex_portal.Base.Text.{Text, codes, text_eq}
use vortex_portal.Base.Json.{Json, bool, text, num, obj, end, field}
use vortex_portal.Base.Dict.{get}
use vortex_portal.Router.Connection.{Bytes, Connection, new_connection, start_stream, done}
use vortex_portal.Agent.Session.{new_session}
use vortex_portal.Agent.Files.{
  Entry, missing, file, is_within, strip_leading, safe_resolve, op_read_file_stream,
}
use vortex_portal.Agent.Bridges.Socket.{Socket, read_exact}
use vortex_portal.Agent.Bridges.Frames.{pack, frames}
use vortex_portal.Agent.Bridges.Framing
use vortex_portal.Agent.Bridges.Framing.{encode, bodies}
use vortex_portal.Agent.Bridges.Commands
use vortex_portal.Agent.Bridges.Commands.{send_command, read_answer}
use vortex_portal.Hub.Files.{body_of, receive_all}
use vortex_portal.Hub.Files.Download
use vortex_portal.Hub.Files.Download.{file_frames, queue_of}

abbrev trickle_recv : ℕ → Bytes → Option (Bytes × Bytes)
trickle_recv n s = some (take (min n 2) s, drop (min n 2) s)

trickle_recv-some :
    (n : ℕ) (s : Bytes)
    → 0 < n
    → 0 < length s
    → (b : Bytes) × (s' : Bytes) × (trickle_recv n s ≡ some (b, s'))
      × (0 < length b)
      × (length b ≤ n)
      × (s ≡ b ++ s')
trickle_recv-some n s p q = (
  take (min n 2) s,
  drop (min n 2) s,
  refl,
  omega (arith, length-take (min n 2) s),
  omega (arith, length-take (min n 2) s),
  sym (take-append-drop (min n 2) s),
)

cut_nothing :
    (n : ℕ) → ◌≡◌ {A = Option (Bytes × Bytes)} (some (take n [], drop n [])) (some ([], []))
cut_nothing zero = refl
cut_nothing (suc n) = refl

trickle_recv-end : (n : ℕ) (s : Bytes) → s ≡ [] → (s' : Bytes) × (trickle_recv n s ≡ some ([], s'))
trickle_recv-end n [] e = ([], cut_nothing (min n 2))
trickle_recv-end n (x ∷ s) e = absurd (ground arith)

abbrev trickle : Socket
trickle = record {
  State = Bytes;
  recv = trickle_recv;
  content = λ s. s;
  recv_some = trickle_recv-some;
  recv_end = λ n s e. inr (trickle_recv-end n s e);
}

read_exact_lem_example :
    (s' : Bytes) × (read_exact trickle 3 (1 ∷ 2 ∷ 3 ∷ 4 ∷ []) ≡ some (1 ∷ 2 ∷ 3 ∷ [], s'))
    × (s' ≡ 4 ∷ [])
read_exact_lem_example =
    Framing.read_exact_lem trickle (1 ∷ 2 ∷ 3 ∷ []) (4 ∷ []) (1 ∷ 2 ∷ 3 ∷ 4 ∷ []) refl

abbrev written : List Bytes
written = (7 ∷ 8 ∷ 9 ∷ []) ∷ [] ∷ (5 ∷ []) ∷ []

frames_round_trip_example : frames trickle 3 (encode written ++ 0 ∷ []) ≡ bodies written
frames_round_trip_example =
    Framing.frames_round_trip trickle written (0 ∷ []) 3 (encode written ++ 0 ∷ []) refl
      (omega arith, (omega arith, (omega arith, tt))) (inl (omega arith)) (omega arith)

abbrev tap : Json
tap = obj (field (codes "type") (text (codes "tap")) end)

abbrev dumped : Json → Bytes
dumped v = codes "tap"

abbrev accepted : Bytes → Option Json
accepted b = some (obj (field (codes "ok") (bool true) (field (codes "result") (num 1) end)))

-- The driver answers with a frame of two bytes, and stays connected.
abbrev answering : Bytes → Bytes → Option Bytes
answering b s = some (pack 2 ++ (b'{' ∷ b'}' ∷ 1 ∷ []))

send_command-answers_example :
    send_command trickle dumped accepted answering (some []) tap
    ≡ read_answer (accepted (b'{' ∷ b'}' ∷ []))
send_command-answers_example =
    Commands.send_command-answers trickle dumped accepted answering []
      (pack 2 ++ (b'{' ∷ b'}' ∷ 1 ∷ [])) tap (b'{' ∷ b'}' ∷ []) (1 ∷ []) (omega arith) refl refl
      (omega arith) (omega arith)

abbrev root : List Text
root = codes "sdcard" ∷ []

abbrev resolved : Text → Text
resolved rel = codes "/sdcard/" ++ rel

abbrev parts : Text → List Text
parts path = codes "sdcard" ∷ path ∷ []

abbrev on_disk : Text → Entry
on_disk path = if text_eq path (codes "/sdcard/a.txt") then file (1 ∷ 2 ∷ 3 ∷ []) else missing

abbrev plain : Text → Text
plain path = codes "text/plain"

abbrev decoded : Json → Bytes
decoded v = []

abbrev hub : Connection
hub = new_connection (codes "d1") 1 (codes "phone")

download_round_trip_example :
    (((op_read_file_stream root resolved parts on_disk plain
          (codes "r1")
          (codes "a.txt")
          new_session).0
        ).sent
      ≡ []
        ++ file_frames root resolved parts on_disk plain decoded
            (codes "r1")
            (codes "/sdcard/a.txt")
            (1 ∷ 2 ∷ 3 ∷ []))
    × (hub' : Connection) × (receive_all
          (file_frames root resolved parts on_disk plain decoded
            (codes "r1")
            (codes "/sdcard/a.txt")
            (1 ∷ 2 ∷ 3 ∷ []))
          (start_stream (codes "r1") (codes "read_file") end hub)
        ≡ done hub')
    × (body_of decoded (queue_of (get (codes "r1") hub'.pending_stream)) ≡ 1 ∷ 2 ∷ 3 ∷ [])
unfolding safe_resolve text_eq strip_leading is_within
download_round_trip_example =
    Download.download_round_trip root resolved parts on_disk plain decoded (codes "r1")
      (codes "a.txt") (codes "/sdcard/a.txt") (codes "read_file") end (1 ∷ 2 ∷ 3 ∷ []) new_session
      hub refl refl
