-- ===== src/Hub/Devices/Hidden.antt =====
-- hub/app.py: what the pages and calls about one device do for whom.
use vortex_portal.Base.{
  ℕ, ◌≡◌, ◌⊎◌, refl, ap, inl, inr, Bool, ◌||◌, not, Option, none, some, List, arith, if◌then◌else◌,
  Bool-cases, Option-cases,
}
use vortex_portal.Base.Text.{Text, codes, text_eq, non_empty, rstrip_slash}
use vortex_portal.Base.Json.{Json, Fields, end}
use vortex_portal.Base.Dict.{Dict}
use vortex_portal.Db.Schema.{Db, User, Device}
use vortex_portal.Db.Devices.{get_device_for_user}
use vortex_portal.Db.Devices.Ownership.{foreign_device_untouched}
use vortex_portal.Router.Connection.{Bytes, Reply}
use vortex_portal.Router.Registry.{Registry, get_conn}
use vortex_portal.Hub.Enrolment.{clean_name}
use vortex_portal.Hub.Devices
use vortex_portal.Hub.Devices.{
  Response, proxied, asked, uploaded, input_args, thumb_args, size_args, is_command, after_delete,
  device_manage, device_rename, device_delete, device_input, device_thumb, device_upload,
  upload_device, upload_to, upload_call, delete_media, api_device_info, api_device_cameras,
  api_device_screen_size, theft_media_get, theft_media_delete,
}

module _ (db : Db) (registry : Registry) (user : User) (device_id : Text) where
  abbrev Owns : Type 0
  Owns = (d : Device) × (get_device_for_user db device_id user.id ≡ some d)

  -- The call answers 404 and sends nothing; or the user owns the device, and it sends nothing, or
  -- this one request over the connection that the device has here.
  abbrev pub Passes : Text → Text → Fields → Response × Registry → Type 0
  Passes rid op args h =
      (h ≡ (Devices.status 404, registry))
      ⊎ (Owns
          × ((h.1 ≡ registry)
              ⊎ ((ref : ℕ) × (get_conn device_id registry ≡ some ref)
                  × (h.1 ≡ asked ref rid op args registry))))

  proxied-Passes :
      (rid op : Text) (args : Fields) (o : Option Device) (c : Option ℕ) (offline : Response)
      (call : ℕ → Response × Registry)
      → get_device_for_user db device_id user.id ≡ o
      → get_conn device_id registry ≡ c
      → ((ref : ℕ) → ((call ref).1 ≡ registry) ⊎ ((call ref).1 ≡ asked ref rid op args registry))
      → Passes rid op args (proxied o c registry offline call)
  proxied-Passes rid op args none c offline call own conn sends = inl refl
  proxied-Passes rid op args (some d) none offline call own conn sends = inr ((d, own), inl refl)
  proxied-Passes rid op args (some d) (some ref) offline call own conn sends = elim (sends ref) [
    | inl quiet ↦ inr ((d, own), inl quiet)
    | inr sent ↦ inr ((d, own), inr (ref, conn, sent))
  ]

  -- The same of an upload, which also leaves the database alone unless it sends.
  abbrev pub PassesUpload : Text → Fields → List Bytes → Response × Db × Registry → Type 0
  PassesUpload rid args chunks h =
      (h ≡ (Devices.status 404, db, registry))
      ⊎ (Owns
          × (((h.1 ≡ db) × (h.2 ≡ registry))
              ⊎ ((ref : ℕ) × (get_conn device_id registry ≡ some ref)
                  × (h.2 ≡ uploaded ref rid (codes "write_file") args chunks registry))))

  upload_device-Passes :
      (rel : Text) (size : Json) (chunks : List Bytes) (rid : Text) (reply : Reply) (now : ℕ)
      (o : Option Device) (c : Option ℕ)
      → get_device_for_user db device_id user.id ≡ o
      → get_conn device_id registry ≡ c
      → PassesUpload rid
          (thumb_args rel size)
          chunks
          (upload_device db registry user device_id rel size chunks rid reply now o)
  upload_device-Passes rel size chunks rid reply now none c own conn = inl refl
  upload_device-Passes rel size chunks rid reply now (some d) none own conn =
      inr ((d, own), inl (rw conn refl, rw conn refl))
  upload_device-Passes rel size chunks rid reply now (some d) (some ref) own conn =
      elim (Bool-cases (not (non_empty rel) || not (text_eq (rstrip_slash rel) rel))) [
        | inl e ↦ inr ((d, own), inl (rw (conn, e) refl, rw (conn, e) refl))
        | inr e ↦ inr ((d, own), inr (ref, conn, rw (conn, e) refl))
      ]

module _ (str_of : Json → Text) (b64decode : Json → Option Bytes) (inside : Text → Bool) (db : Db)
    (registry : Registry) (user : User) (device_id : Text) where
  abbrev pub PassesOn : Option Json → Text → Json → List Bytes → Text → Reply → Text → ℕ → Type 0
  PassesOn cmd rel size chunks rid reply url now =
      Passes db registry user device_id rid (codes "input") (input_args cmd)
        (device_input db registry user.id device_id cmd rid reply)
      × Passes db registry user device_id rid (codes "thumbnail") (thumb_args rel size)
          (device_thumb b64decode db registry user.id device_id rel size rid reply)
      × Passes db registry user device_id rid (codes "device_info") end
          (api_device_info str_of url db registry user.id device_id rid reply now)
      × Passes db registry user device_id rid (codes "camera_info") end
          (api_device_cameras str_of db registry user.id device_id rid reply)
      × Passes db registry user device_id rid (codes "input") (size_args str_of)
          (api_device_screen_size str_of db registry user.id device_id rid reply)
      × PassesUpload db registry user device_id rid (thumb_args rel size) chunks
          (device_upload db registry user device_id rel size chunks rid reply now)

  handlers-PassesOn :
      (cmd : Option Json) (rel : Text) (size : Json) (chunks : List Bytes) (rid : Text)
      (reply : Reply) (url : Text) (now : ℕ)
      → PassesOn cmd rel size chunks rid reply url now
  unfolding device_input device_thumb api_device_info api_device_cameras api_device_screen_size
      device_upload
  handlers-PassesOn cmd rel size chunks rid reply url now = (
    proxied-Passes db registry user device_id rid _ _ _ _ _ _ refl refl (λ ref.
        elim (Bool-cases (is_command cmd)) [ inl e ↦ inr (rw e refl) | inr e ↦ inl (rw e refl) ]),
    proxied-Passes db registry user device_id rid _ _ _ _ _ _ refl refl (λ ref. inr refl),
    proxied-Passes db registry user device_id rid _ _ _ _ _ _ refl refl (λ ref. inr refl),
    proxied-Passes db registry user device_id rid _ _ _ _ _ _ refl refl (λ ref. inr refl),
    proxied-Passes db registry user device_id rid _ _ _ _ _ _ refl refl (λ ref. inr refl),
    upload_device-Passes db registry user device_id rel size chunks rid reply now _ _ refl refl,
  )

  -- What the other pages show and change, unless the user owns the device.
  abbrev pub Guards : Text → Dict Bytes → ℕ → Type 0
  Guards name files media_id =
      ((device_manage db registry user.id device_id ≡ Devices.status 404)
        ⊎ Owns db registry user device_id)
      × ((theft_media_get inside db files user.id device_id media_id ≡ Devices.status 404)
          ⊎ Owns db registry user device_id)
      × ((device_rename db user.id device_id name
            ≡ (if non_empty (clean_name name) then Devices.status 404 else Devices.status 400, db))
          ⊎ Owns db registry user device_id)
      × ((device_delete db registry user.id device_id ≡ (Devices.status 404, db, registry))
          ⊎ Owns db registry user device_id)
      × ((theft_media_delete inside db files user.id device_id media_id
            ≡ (Devices.status 404, db, files))
          ⊎ Owns db registry user device_id)

  handlers-Guards : (name : Text) (files : Dict Bytes) (media_id : ℕ) → Guards name files media_id
  unfolding device_manage device_rename device_delete theft_media_get theft_media_delete
  handlers-Guards name files media_id =
      elim (Option-cases (get_device_for_user db device_id user.id)) [
        | inr owner ↦ (inr owner, inr owner, inr owner, inr owner, inr owner)
        | inl h ↦
            let (unnamed, _, _) =
              foreign_device_untouched db device_id (clean_name name) none user.id h in
            let (_, _, kept) = foreign_device_untouched db device_id name none user.id h in
            (
              inl (rw h refl),
              inl (rw h refl),
              inl (rw unnamed (ground arith)),
              inl (ap (after_delete registry device_id) kept),
              inl (ap (delete_media inside db files user.id device_id media_id) h),
            )
      ]

  -- Only the owner reaches a device. Each of the five calls that ask the agent, and the upload,
  -- answers 404 and leaves every connection, and the upload the database, as they were, or the user
  -- owns the device; and then it sends nothing, or to the connection that the device has here its one
  -- request, with the command or the path of the caller, and in an upload the chunks. The page of
  -- the device, its captures, its renaming, which looks at the name first, its deletion and the
  -- deletion of a capture are not found and change nothing, unless the user owns the device.
  pub foreign_device_hidden :
      (cmd : Option Json) (rel : Text) (size : Json) (chunks : List Bytes) (rid : Text)
      (reply : Reply) (url : Text) (now : ℕ) (name : Text) (files : Dict Bytes) (media_id : ℕ)
      → PassesOn cmd rel size chunks rid reply url now × Guards name files media_id
  foreign_device_hidden cmd rel size chunks rid reply url now name files media_id =
      (handlers-PassesOn cmd rel size chunks rid reply url now, handlers-Guards name files media_id)
