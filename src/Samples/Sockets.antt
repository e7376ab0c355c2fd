-- ===== src/Samples/Sockets.antt =====
-- Connections of agents: two streams over one socket, a reconnect.
use vortex_portal.Base.{
  if◌then◌else◌, ◌≡◌, ◌≢◌, ◌⊎◌, refl, true, false, none, some, List, [], ◌∷◌, arith,
}
use vortex_portal.Base.Text.{Text, codes, text_eq}
use vortex_portal.Base.Json.{text}
use vortex_portal.Base.Dict.{get}
use vortex_portal.Router.Connection.{
  Connection, pending, exception, closing, done, no_rid, close_pending, Bytes,
}
use vortex_portal.Router.Connection.Routing
use vortex_portal.Router.Connection.Routing.{receive_chunks, own_chunks, queue_append, response}
use vortex_portal.Router.Registry.{Registry, register, unregister, get_conn}
use vortex_portal.Router.Registry.Lifecycle
use vortex_portal.Router.Registry.Lifecycle.{
  Step, registers, unregisters, Reach, here, next, IsLive,
}

abbrev busy : Connection
busy = record {
  device_id = codes "d1";
  owner_id = 1;
  name = codes "phone";
  pending_unary = (codes "u", pending) ∷ [];
  pending_stream = (codes "s", []) ∷ (codes "t", []) ∷ [];
  closed = false;
  pending_binary_for_rid = no_rid;
  direct_info = none;
  sent = [];
}

abbrev pairs : List (Text × Bytes)
pairs = (codes "s", 1 ∷ []) ∷ (codes "t", 2 ∷ []) ∷ (codes "x", 3 ∷ []) ∷ (codes "s", 4 ∷ []) ∷ []

receive_chunks-demultiplex_example :
    (c' : Connection) × (receive_chunks pairs busy ≡ done c')
    × (get (codes "s") c'.pending_stream
        ≡ queue_append (get (codes "s") busy.pending_stream) (own_chunks (codes "s") pairs))
    × (c'.pending_unary ≡ busy.pending_unary)
receive_chunks-demultiplex_example = Routing.receive_chunks-demultiplex pairs busy (codes "s")

close_pending-ends_all_example :
    (get (codes "u") (close_pending (codes "gone") busy).pending_unary ≢ some pending)
    × ((get (codes "u") busy.pending_unary ≢ some pending)
        ⊎ (get (codes "u") (close_pending (codes "gone") busy).pending_unary
            ≡ some (exception (text (codes "gone")))))
    × (get (codes "u") (close_pending (codes "gone") busy).pending_stream
        ≡ queue_append (get (codes "u") busy.pending_stream) (closing ∷ []))
    × ((close_pending (codes "gone") busy).closed ≡ true)
close_pending-ends_all_example = Routing.close_pending-ends_all busy (codes "gone") (codes "u")

abbrev nobody : Registry
nobody = record { conns = []; heap = λ _. busy; closes = [] }

nobody-IsLive : IsLive nobody
unfolding get_conn get
nobody-IsLive d r e = absurd (ground arith)

registry-IsLive_example : IsLive (unregister 7 (register 7 nobody))
registry-IsLive_example =
    Lifecycle.registry-IsLive nobody-IsLive (next (next here (registers 7 refl)) (unregisters 7))

abbrev connected : Registry
connected = record nobody { conns = (codes "d1", 7) ∷ [] }

register-supersedes_example :
    let s' = register 8 connected in
    (get_conn (codes "d1") s' ≡ some 8)
    × (get_conn (codes "d1") (unregister 7 s') ≡ some 8)
    × (get_conn (codes "d1") (register 7 s')
        ≡ (if text_eq (s'.heap 7).device_id (codes "d1") then some 7 else some 8))
    × ((s'.heap 7).closed ≡ true)
    × (s'.closes ≡ (7, 1000, codes "superseded") ∷ [])
    × (get_conn (codes "d1") (unregister 8 s') ≡ none)
unfolding get_conn get text_eq
register-supersedes_example =
    Lifecycle.register-supersedes connected 7 8 7 (codes "d1") refl refl refl (omega arith)
      (omega arith)
