-- ===== src/Router/Registry.antt =====
-- hub/ws_router.py, `Registry`: one connection for each device. Connections are objects, known by a
-- number, so that `is` is equality of numbers; `heap` holds their state. The registry's lock makes
-- each method one step.
pub mod Lifecycle
use vortex_portal.Base.{
  ℕ, Bool, true, false, Option, none, some, List, [], ◌∷◌, ◌++◌, if◌then◌else◌, ◌==◌,
}
use vortex_portal.Base.Text.{Text, codes, contains}
use vortex_portal.Base.Dict.{Dict, get, put, remove, keys}
use vortex_portal.Router.Connection.{Connection, close_pending}

pub record Registry : Type 0 where
  pub conns : Dict ℕ
  pub heap : ℕ → Connection
  -- the sockets that the registry has closed, with the close code and the reason
  pub closes : List (ℕ × ℕ × Text)

abbrev pub write : ℕ → Connection → (ℕ → Connection) → ℕ → Connection
write ref c heap k = if k == ref then c else heap k

-- The connection that another one of its device replaces is closed, and its waiters are told.
abbrev supersede : Registry → ℕ → Option ℕ → Registry
supersede s ref none = s
supersede s ref (some old) = if old == ref then s else (record s {
  heap = write old (close_pending (codes "superseded by new connection") (s.heap old)) s.heap;
  closes = s.closes ++ (old, 1000, codes "superseded") ∷ [];
})

unfoldable pub register : ℕ → Registry → Registry
register ref s =
    let device_id = (s.heap ref).device_id in
    let s' = supersede s ref (get device_id s.conns) in
    record s' { conns = put device_id ref s.conns }

abbrev evict : Registry → ℕ → Option ℕ → Dict ℕ
evict s ref none = s.conns
evict s ref (some cur) = if cur == ref then remove (s.heap ref).device_id s.conns else s.conns

unfoldable pub unregister : ℕ → Registry → Registry
unregister ref s = record s {
  conns = evict s ref (get (s.heap ref).device_id s.conns);
  heap = write ref (close_pending (codes "agent disconnected") (s.heap ref)) s.heap;
}

-- `get`
unfoldable pub get_conn : Text → Registry → Option ℕ
get_conn device_id s = get device_id s.conns

unfoldable pub online_ids : Registry → List Text
online_ids s = keys s.conns
