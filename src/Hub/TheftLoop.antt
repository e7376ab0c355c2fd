-- ===== src/Hub/TheftLoop.antt =====
-- hub/app.py, `_theft_loop`: one tick of the periodic capture. `loads` is `json.loads`, none where
-- it raises ValueError, `online` tells which devices have a connection on this node, and what the
-- captures find outside the program, the agent's stream included, is an argument of each tick. The
-- tick's wake-lock request to the agent changes nothing here and is left out.
pub mod Rows
pub mod Marking
pub mod Debounce
use vortex_portal.Base.{
  ℕ, zero, suc, ◌-◌, ◌≤◌, max, Bool, true, false, ◌&&◌, not, Option, none, some, List, [], ◌∷◌,
  ◌++◌, if◌then◌else◌, leb,
}
use vortex_portal.Base.Text.{Text, codes, or_else}
use vortex_portal.Base.Json.{
  Json, null, bool, num, negative, text, arr, obj, Fields, end, lookup, truthy,
}
use vortex_portal.Db.Schema.{Db, TheftState}
use vortex_portal.Db.Theft.{update_theft_last_run, armed_devices}
use vortex_portal.Router.Connection.{Bytes, Item}
use vortex_portal.Hub.Capture.{
  Kind, photo_kind, audio_kind, location_kind, name_of, Store, capture_to_store,
}

-- One capture that the tick asks for.
pub record Job : Type 0 where
  pub device_id : Text
  pub owner_id : ℕ
  pub kind : Kind
  pub opts : Fields

abbrev pub interval_of : ℕ → ℕ
interval_of zero = 300
interval_of (suc n) = max 30 (suc n)

abbrev pub last_of : Option ℕ → ℕ
last_of none = 0
last_of (some t) = t

-- not (now - last < interval), for a clock that has not gone back; if it has, the difference is
-- negative and the row waits, as here
abbrev pub is_due : ℕ → TheftState → Bool
is_due now st = leb (interval_of st.interval_s) (now - last_of st.last_run)

-- `json.loads(opts or "{}")`, {} where it raises; none where `.get` raises
abbrev as_opts : Option Json → Option Fields
as_opts none = some end
as_opts (some (obj fs)) = some fs
as_opts (some null) = none
as_opts (some (bool b)) = none
as_opts (some (num n)) = none
as_opts (some (negative n)) = none
as_opts (some (text t)) = none
as_opts (some (arr vs)) = none

-- What one tick finds outside: the registry's connections, what the agent streams for a capture,
-- the clock and the draw at its end, the retention of the settings, and library functions.
pub record Outside : Type 0 where
  pub online : Text → Bool
  pub loads : Text → Option Json
  pub digits : ℕ → Text
  pub meta_of : Kind → Bytes → Option Text
  pub inside : Text → Bool
  pub b64decode : Json → Bytes
  pub retention : ℕ
  pub items : Job → List Item
  pub clock : Job → ℕ
  pub drawn : Job → Text

pub record Tick : Type 0 where
  pub store : Store
  pub jobs : List Job

-- A capture that raises is swallowed, and keeps what it wrote.
abbrev pub capture : Outside → Job → Store → Store
capture w job s =
    (capture_to_store w.digits w.meta_of w.inside w.b64decode job.device_id job.owner_id job.kind
      (codes "auto") w.retention (w.clock job) (w.drawn job) (w.items job) s).1

module _ (w : Outside) where
  abbrev ask : Text → ℕ → Fields → Kind → Tick → Tick
  ask device_id owner_id opts kind t =
      let job : Job = record {
        device_id = device_id;
        owner_id = owner_id;
        kind = kind;
        opts = opts;
      } in
      if truthy (lookup (name_of kind) opts)
      then (record { store = capture w job t.store; jobs = t.jobs ++ job ∷ [] })
      else t

  -- The rest of the tick is skipped where an exception leaves the loop over the devices.
  unfoldable pub tick_over : ℕ → List (TheftState × ℕ) → Tick → Tick
  tick_over now [] t = t
  tick_over now ((st, owner_id) ∷ rows) t =
      let marked : Tick = record t {
        store = record t.store { db = update_theft_last_run t.store.db st.device_id now };
      } in
      elim (is_due now st && w.online st.device_id) [
        | false ↦ tick_over now rows t
        | true ↦ elim (as_opts (w.loads (or_else st.opts (codes "{}")))) [
          | none ↦ marked
          | some opts ↦ tick_over now rows (
              ask st.device_id owner_id opts audio_kind (
                ask st.device_id owner_id opts photo_kind
                  (ask st.device_id owner_id opts location_kind marked)))
        ]
      ]

  unfoldable pub tick : ℕ → Store → Tick
  unfolding tick_over
  tick now s = tick_over now (armed_devices s.db) (record { store = s; jobs = [] })
