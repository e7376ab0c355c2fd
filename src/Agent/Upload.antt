-- ===== src/Agent/Upload.antt =====
-- agent/agent.py, `op_write_file`: receiving a file. `path` is what `_safe_resolve` made of the
-- argument; a file system is a dictionary from paths to contents and a test for directories.
pub mod RoundTrip
use vortex_portal.Base.{
  ℕ, ◌+◌, Bool, true, false, Option, none, some, List, [], ◌∷◌, ◌++◌, if◌then◌else◌, ◌==◌, length,
}
use vortex_portal.Base.Text.{Text, codes}
use vortex_portal.Base.Dict.{Dict, get, put, remove}
use vortex_portal.Router.Connection.{Bytes}
use vortex_portal.Agent.Session.{
  Session, Event, chunk_event, end_event, abort_event, open_recv, close_recv,
}

-- The loop on the queue, from the bytes that are in the temporary file. A queue that runs dry ends
-- in the timeout of the wait.
pub data Drained : Type 0 where
  finished : Bytes → ℕ → Drained
  aborted : Text → Drained
  dry : Drained

unfoldable pub drain : List Event → Bytes → ℕ → Drained
drain [] file written = dry
drain (end_event ∷ events) file written = finished file written
drain (abort_event reason ∷ events) file written = aborted reason
drain (chunk_event bytes ∷ events) file written =
    drain events (file ++ bytes) (written + length bytes)

-- The dictionary that is returned, or the name of the exception.
pub data Written : Type 0 where
  saved : Text → ℕ → Written
  size_mismatch : Text → ℕ → ℕ → Written
  write_error : Text → Written

unfoldable pub part_of : Text → Text
part_of path = path ++ codes ".part"

-- A directory is refused before the queue is opened.
unfoldable pub start_write : (Text → Bool) → Text → Text → Session → Option Session
unfolding open_recv
start_write is_dir path rid s = if is_dir path then none else some (open_recv rid s)

abbrev report : Text → ℕ → Option ℕ → Written
report rel written none = saved rel written
report rel written (some size) =
    if written == size then saved rel written else size_mismatch rel written size

abbrev pub close_file : Text → Text → Option ℕ → Dict Bytes → Drained → Written × Dict Bytes
close_file rel path expected files (finished file written) =
    (report rel written expected, put path file (remove (part_of path) files))
close_file rel path expected files (aborted reason) =
    (write_error (codes "OSError"), remove (part_of path) files)
close_file rel path expected files dry =
    (write_error (codes "TimeoutError"), remove (part_of path) files)

abbrev pub queue_of : Option (List Event) → List Event
queue_of none = []
queue_of (some q) = q

-- From the opening of the temporary file on; `files` are the files before it.
unfoldable pub finish_write :
    Text → Text → Text → Option ℕ → Session → Dict Bytes → (Written × Dict Bytes) × Session
unfolding drain part_of close_recv
finish_write rel path rid expected s files = (
  close_file rel path expected files (drain (queue_of (get rid s.recv_queues)) [] 0),
  close_recv rid s,
)
