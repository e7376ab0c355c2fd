-- ===== src/Hub/Theft.antt =====
-- hub/app.py, Theft Mode: arming and disarming. The JSON library is a parameter. A tick of keep-awake, which
-- only sends a request to the agent, changes no state of the hub and is left out.
use vortex_portal.Base.{
  ℕ, max, min, true, false, ◌&&◌, not, Option, none, some, List, [], ◌∷◌, ◌++◌, if◌then◌else◌,
  is_some,
}
use vortex_portal.Base.Text.{Text, codes, non_empty}
use vortex_portal.Base.Json.{bool, num, text, Fields, end, field}
use vortex_portal.Db.Schema.{Db, User, Device, Result, ok, integrity_error}
use vortex_portal.Db.Devices.{get_device_for_user, list_devices}
use vortex_portal.Db.Theft.{set_theft_armed}
use vortex_portal.Db.Audit.{Event, record_audit}

-- The form of `/theft/arm`.
pub record ArmForm : Type 0 where
  pub interval : ℕ
  pub photo : Text
  pub audio : Text
  pub location : Text
  pub keepawake : Text
  pub audio_seconds : ℕ
  pub camera_id : Text
  pub attest : Text

-- `opts`, before `json.dumps`
unfoldable pub opts_of : ArmForm → Fields
opts_of f = field (codes "photo") (bool (non_empty f.photo)) (
    field (codes "audio") (bool (non_empty f.audio)) (
      field (codes "location") (bool (non_empty f.location)) (
        field (codes "keepawake") (bool (non_empty f.keepawake)) (
          field (codes "audio_seconds") (num (max 1 (min 120 f.audio_seconds)))
            (field (codes "camera_id") (text f.camera_id) end)))))

-- ",".join(k for k in ("photo", "audio", "location") if opts[k])
abbrev pub comma : Text → Text → Text
comma [] t = t
comma (c ∷ s) [] = c ∷ s
comma (c ∷ s) (d ∷ t) = (c ∷ s) ++ b',' ∷ d ∷ t

unfoldable pub kinds_of : ArmForm → Text
kinds_of f =
    comma
      (comma (if non_empty f.photo then codes "photo" else [])
        (if non_empty f.audio then codes "audio" else []))
      (if non_empty f.location then codes "location" else [])

-- The answer of a handler that changes the database: a status, the 303 of success included.
abbrev pub Answer : Type 0
Answer = ℕ × Db

abbrev pub event_of : Text → User → Text → Option Text → Event
event_of action user device_id detail = record {
  action = action;
  owner_id = some user.id;
  actor_id = some user.id;
  actor_name = some user.username;
  device_id = some device_id;
  detail = detail;
  node_url = none;
  ok = true;
}

abbrev pub audited : Event → ℕ → Db → Result Db → Answer
audited e now db (ok db') = (303, record_audit db' e now)
audited e now db integrity_error = (500, db)

-- Loops of `-all`: the devices in their order; an exception leaves what was done.
unfoldable pub each_device : (Text → Db → Result Db) → List Device → Db → Answer
each_device f [] db = (303, db)
each_device f (d ∷ ds) db = elim (f d.id db) [
  | ok db' ↦ each_device f ds db'
  | integrity_error ↦ (500, db)
]

module _ (dumps : Fields → Text) where
  abbrev arm_device : User → Text → ArmForm → ℕ → Db → Answer
  arm_device user device_id f now db =
      if not (non_empty f.attest)
      then (400, db)
      else if not (non_empty f.photo) && not (non_empty f.audio) && not (non_empty f.location)
      then (400, db)
      else audited (event_of (codes "theft_arm") user device_id (some (kinds_of f))) now db (
          set_theft_armed db device_id true (some user.id) (max 30 f.interval) (dumps (opts_of f))
            now)

  unfoldable pub theft_arm : User → Text → ArmForm → ℕ → Db → Answer
  unfolding opts_of kinds_of
  theft_arm user device_id f now db =
      if is_some (get_device_for_user db device_id user.id)
      then arm_device user device_id f now db
      else (404, db)

  unfoldable pub theft_disarm : User → Text → ℕ → Db → Answer
  theft_disarm user device_id now db =
      if is_some (get_device_for_user db device_id user.id)
      then audited (event_of (codes "theft_disarm") user device_id none) now db
          (set_theft_armed db device_id false none 300 (codes "{}") now)
      else (404, db)

  unfoldable pub theft_arm_all : User → ArmForm → ℕ → Db → Answer
  unfolding opts_of each_device
  theft_arm_all user f now db =
      if not (non_empty f.attest)
      then (400, db)
      else if not (non_empty f.photo) && not (non_empty f.audio) && not (non_empty f.location)
      then (400, db)
      else each_device
          (λ device_id db'.
            set_theft_armed db' device_id true (some user.id) (max 30 f.interval)
              (dumps (opts_of f)) now)
          (list_devices db user.id) db

  unfoldable pub theft_disarm_all : User → ℕ → Db → Answer
  unfolding each_device
  theft_disarm_all user now db =
      each_device (λ device_id db'. set_theft_armed db' device_id false none 300 (codes "{}") now)
        (list_devices db user.id) db
