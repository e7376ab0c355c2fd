-- ===== src/Agent/Files.antt =====
-- agent/agent.py: `_safe_resolve`, `op_stat` and `op_read_file_stream`. What pathlib makes of a
-- path, and the MIME type of a name, are parameters.
use vortex_portal.Base.{
  ℕ, zero, suc, ◌*◌, Bool, true, false, ◌&&◌, Option, none, some, List, [], ◌∷◌, if◌then◌else◌,
  ◌==◌, length, take, drop,
}
use vortex_portal.Base.Text.{Text, codes, text_eq, lstrip}
use vortex_portal.Base.Json.{bool, num, text, obj, Fields, end, field}
use vortex_portal.Router.Connection.{Bytes, of_type}
use vortex_portal.Agent.Session.{Session, send_text, send_chunk}
use vortex_portal.Agent.Requests.{Ran, returned, raised}

-- What a path names; a file's bytes are those at the time of the operation.
pub data Entry : Type 0 where
  missing : Entry
  directory : Entry
  file : Bytes → Entry

-- target.relative_to(root) raises no ValueError: the parts of the root come first.
unfoldable pub is_within : List Text → List Text → Bool
is_within [] target = true
is_within (r ∷ root) [] = false
is_within (r ∷ root) (t ∷ target) = text_eq r t && is_within root target

-- (rel or "").lstrip("/").lstrip("\\")
unfoldable pub strip_leading : Text → Text
unfolding lstrip
strip_leading rel = lstrip (λ c. c == 92) (lstrip (λ c. c == b'/') rel)

abbrev pub chunk_size : ℕ
chunk_size = 256 * 1024

-- f.read(CHUNK_SIZE) until it gives b"", on fuel for the rounds
unfoldable pub read_chunks : ℕ → Bytes → List Bytes
read_chunks zero content = []
read_chunks (suc fuel) [] = []
read_chunks (suc fuel) (b ∷ bs) =
    take chunk_size (b ∷ bs) ∷ read_chunks fuel (drop chunk_size (b ∷ bs))

unfoldable pub send_each : Text → List Bytes → Session → Session
send_each rid [] s = s
send_each rid (bytes ∷ chunks) s = send_each rid chunks (send_chunk rid bytes s)

unfoldable pub stream_start : Text → ℕ → Text → Fields
stream_start rid size content_type = field (codes "type") (text (codes "stream_start")) (
    field (codes "id") (text rid)
      (field (codes "size") (num size) (field (codes "content_type") (text content_type) end)))

-- `root` are the parts of STORAGE_ROOT, `resolved rel` is (STORAGE_ROOT / rel).resolve(), `parts`
-- its parts, and `entry` what stands there.
module _ (root : List Text) (resolved : Text → Text) (parts : Text → List Text)
    (entry : Text → Entry) (guess_type : Text → Text) where
  -- None is the PermissionError.
  unfoldable pub safe_resolve : Text → Option Text
  unfolding strip_leading is_within
  safe_resolve rel =
      let target = resolved (strip_leading rel) in
      if is_within root (parts target) then some target else none

  abbrev stat_entry : Text → Entry → Fields
  stat_entry path missing = field (codes "exists") (bool false) end
  stat_entry path directory =
      field (codes "exists") (bool true) (field (codes "is_dir") (bool true) end)
  stat_entry path (file content) = field (codes "exists") (bool true) (
      field (codes "is_dir") (bool false) (
        field (codes "size") (num (length content))
          (field (codes "content_type") (text (guess_type path)) end)))

  abbrev stat_path : Option Text → Ran
  stat_path none = raised (codes "PermissionError: Path escapes storage root")
  stat_path (some path) = returned (obj (stat_entry path (entry path)))

  unfoldable pub op_stat : Text → Ran
  unfolding safe_resolve
  op_stat rel = stat_path (safe_resolve rel)

  -- The bytes are sent in chunks; length many rounds are enough to send them all.
  abbrev stream_file : Text → Text → Bytes → Session → Session
  stream_file rid path content s = send_text (of_type (codes "stream_end") rid) (
      send_each rid (read_chunks (length content) content)
        (send_text (stream_start rid (length content) (guess_type path)) s))

  abbrev stream_entry : Text → Text → Entry → Session → Session × Ran
  stream_entry rid path missing s = (s, raised (codes "FileNotFoundError: Not a file"))
  stream_entry rid path directory s = (s, raised (codes "FileNotFoundError: Not a file"))
  stream_entry rid path (file content) s = (stream_file rid path content s, returned (bool true))

  abbrev stream_path : Text → Option Text → Session → Session × Ran
  stream_path rid none s = (s, raised (codes "PermissionError: Path escapes storage root"))
  stream_path rid (some path) s = stream_entry rid path (entry path) s

  unfoldable pub op_read_file_stream : Text → Text → Session → Session × Ran
  unfolding safe_resolve send_text send_each read_chunks stream_start
  op_read_file_stream rid rel s = stream_path rid (safe_resolve rel) s
