-- ===== src/Router/Registry/Lifecycle.antt =====
-- hub/ws_router.py, `Registry`: connections that come, go and replace one another.
use vortex_portal.Base.{
  ℕ, ◌≡◌, ◌≢◌, refl, true, false, none, some, [], ◌∷◌, ◌++◌, if◌then◌else◌, arith,
}
use vortex_portal.Base.Text.{Text, codes, text_eq, text_eq_iff, text_eq_refl}
use vortex_portal.Base.Dict.{put, get-put, get-remove}
use vortex_portal.Router.Connection.{Connection, close_pending}
use vortex_portal.Router.Registry.{Registry, register, unregister, get_conn}

-- The methods, as `ws_agent` calls them: a connection that registers is open, and any connection
-- may go at any time, also one that has been replaced or is gone already.
pub data Step (s : Registry) : Registry → Type 0 where
  registers : (ref : ℕ) → (s.heap ref).closed ≡ false → Step s (register ref s)
  unregisters : (ref : ℕ) → Step s (unregister ref s)

pub data Reach (s : Registry) : Registry → Type 0 where
  here : Reach s s
  next : {t u : Registry} → Reach s t → Step t u → Reach s u

-- Whoever the registry names for a device is a connection of that device, and open.
abbrev pub IsLive : Registry → Type 0
IsLive s =
    (device_id : Text) (ref : ℕ)
    → get_conn device_id s ≡ some ref
    → ((s.heap ref).device_id ≡ device_id) × ((s.heap ref).closed ≡ false)

close_pending-device :
    (error : Text) (c : Connection) → (close_pending error c).device_id ≡ c.device_id
unfolding close_pending
close_pending-device error c = refl

close_pending-closed : (error : Text) (c : Connection) → (close_pending error c).closed ≡ true
unfolding close_pending
close_pending-closed error c = refl

register-IsLive :
    (s : Registry) (ref : ℕ) → (s.heap ref).closed ≡ false → IsLive s → IsLive (register ref s)
unfolding register get_conn
register-IsLive s ref h live d r e = ground (
  arith,
  live d r,
  live (s.heap ref).device_id r,
  get-put (s.heap ref).device_id d ref s.conns,
  text_eq_iff (s.heap ref).device_id d,
)

unregister-IsLive : (s : Registry) (ref : ℕ) → IsLive s → IsLive (unregister ref s)
unfolding unregister get_conn
unregister-IsLive s ref live d r e = ground (
  arith,
  live d r,
  get-remove (s.heap ref).device_id d s.conns,
  text_eq_iff (s.heap ref).device_id d,
)

Step-IsLive : {s t : Registry} → Step s t → IsLive s → IsLive t
Step-IsLive {s} (registers ref h) live = register-IsLive s ref h live
Step-IsLive {s} (unregisters ref) live = unregister-IsLive s ref live

-- However connections come and go, the registry names for a device only a connection of that
-- device, and never one that was closed.
pub registry-IsLive : {s t : Registry} → IsLive s → Reach s t → IsLive t
registry-IsLive live here = live
registry-IsLive live (next r st) = Step-IsLive st (registry-IsLive live r)

-- The end of one connection takes no other out.
unregister_other :
    (s : Registry) (other cur : ℕ) (device_id : Text)
    → get_conn device_id s ≡ some cur
    → other ≢ cur
    → get_conn device_id (unregister other s) ≡ some cur
unfolding unregister get_conn
unregister_other s other cur device_id e apart = ground (
  arith,
  text_eq_iff (s.heap other).device_id device_id,
  get-remove (s.heap other).device_id device_id s.conns,
)

register_other :
    (s : Registry) (other cur : ℕ) (device_id : Text)
    → get_conn device_id s ≡ some cur
    → get_conn device_id (register other s)
      ≡ (if text_eq (s.heap other).device_id device_id then some other else some cur)
unfolding register get_conn
register_other s other cur device_id e =
    ground (arith, get-put (s.heap other).device_id device_id other s.conns)

-- A connection that replaces another stays registered when any other connection ends, the old one
-- included, or one of another device joins; it goes with its own end or with a newer connection
-- of the device. The old one is closed with 1000.
pub register-supersedes :
    (s : Registry) (old new other : ℕ) (device_id : Text)
    → get_conn device_id s ≡ some old
    → (s.heap old).device_id ≡ device_id
    → (s.heap new).device_id ≡ device_id
    → old ≢ new
    → other ≢ new
    → let s' = register new s in
      (get_conn device_id s' ≡ some new)
      × (get_conn device_id (unregister other s') ≡ some new)
      × (get_conn device_id (register other s')
          ≡ (if text_eq (s'.heap other).device_id device_id then some other else some new))
      × ((s'.heap old).closed ≡ true)
      × (s'.closes ≡ s.closes ++ (old, 1000, codes "superseded") ∷ [])
      × (get_conn device_id (unregister new s') ≡ none)
unfolding register unregister get_conn
register-supersedes s old new other device_id e o n d apart =
    let mine = get-put device_id device_id new s.conns in
    let same = text_eq_refl device_id in
    let kept = close_pending-device (codes "superseded by new connection") (s.heap old) in
    let ended = close_pending-closed (codes "superseded by new connection") (s.heap old) in
    let s' = register new s in
    let here : get_conn device_id s' ≡ some new =
      ground (arith, get-put (s.heap new).device_id device_id new s.conns, same) in
    (
      here,
      unregister_other s' other new device_id here apart,
      register_other s' other new device_id here,
      ground (arith, ended),
      ground arith,
      ground (
        arith,
        get-put (s.heap new).device_id device_id new s.conns,
        same,
        kept,
        get-remove (s.heap new).device_id device_id (put (s.heap new).device_id new s.conns),
      ),
    )
