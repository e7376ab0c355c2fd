-- ===== src/Samples/Devices.antt =====
-- A device that a stranger asks for, one that is unpaired, one that signs in, and a password.
use vortex_portal.Base.{
  ℕ, ◌+◌, ◌≡◌, refl, Bool, true, none, some, Option, [], ◌∷◌, ◌++◌, arith, ltb, length,
  if◌then◌else◌,
}
use vortex_portal.Base.Text.{Text, codes, text_eq, strip, lstrip, rstrip, is_space}
use vortex_portal.Base.Json.{Json, null}
use vortex_portal.Base.Table.{find, matches}
use vortex_portal.Base.Dict.{get}
use vortex_portal.Db.Schema.{Db, User, Device, user_exists}
use vortex_portal.Db.Users.{get_user_by_id}
use vortex_portal.Db.Devices.{get_device_for_user, get_device, authenticate_device}
use vortex_portal.Db.Sessions.{create_session}
use vortex_portal.Db.Passwords.{hash_password, verify_password}
use vortex_portal.Db.Passwords.RoundTrip
use vortex_portal.Auth.Cookies.{login, current_user_optional}
use vortex_portal.Router.Connection.{Bytes, new_connection, timeout}
use vortex_portal.Router.Registry.{Registry, get_conn}
use vortex_portal.Hub.Devices.{redirect, device_delete}
use vortex_portal.Hub.Devices.Hidden
use vortex_portal.Hub.Devices.Hidden.{PassesOn, Guards}
use vortex_portal.Hub.DeviceApi.{Answer, answered, device_of, api_device_session}
use vortex_portal.Hub.DeviceApi.Bridge
use vortex_portal.Hub.DeviceApi.Bridge.{Refuses}
use vortex_portal.Samples.{plain_hash, ann, phone, home}

abbrev bob : User
bob = record ann { id = 2; username = codes "bob" }

abbrev shown : Json → Text
shown v = codes "?"

abbrev no_image : Json → Option Bytes
no_image v = none

abbrev anywhere : Text → Bool
anywhere path = true

abbrev online : Registry
online = record {
  conns = (codes "d1", 3) ∷ [];
  heap = λ _. new_connection (codes "d1") 1 (codes "phone");
  closes = [];
}

foreign_device_hidden_example :
    PassesOn shown no_image anywhere home online bob
      (codes "d1")
      none
      (codes "a.txt")
      null
      []
      (codes "r1")
      timeout
      (codes "http://a")
      50
    × Guards shown no_image anywhere home online bob (codes "d1") (codes "mine") [] 1
foreign_device_hidden_example =
    Hidden.foreign_device_hidden shown no_image anywhere home online bob (codes "d1") none
      (codes "a.txt") null [] (codes "r1") timeout (codes "http://a") 50 (codes "mine") [] 1

device_delete-Refuses_example :
    let after = device_delete home online 1 (strip (codes " d1")) in
    (after.0 ≡ redirect (codes "/"))
    × (after.2.closes ≡ [] ++ (3, 4001, codes "unpaired") ∷ [])
    × Refuses plain_hash
        (codes "http://a")
        after.2
        after.1
        (codes " d1")
        (codes "tok")
        (codes "s")
        (codes "http://a")
        100
        50
unfolding get_device_for_user find text_eq strip lstrip rstrip is_space matches get_conn get
device_delete-Refuses_example =
    Bridge.device_delete-Refuses plain_hash home online 1 phone (codes " d1") (codes "tok")
      (codes "s") (codes "http://a") (codes "http://a") 3 100 50 (omega arith) refl refl

abbrev signing_in : Answer ℕ × Db
signing_in = api_device_session plain_hash home (codes "d1") (codes "tok") (codes "s") 100 50

signing_in_lem : signing_in ≡ (answered 1, signing_in.1)
unfolding api_device_session device_of authenticate_device get_device find text_eq strip lstrip
    rstrip is_space login create_session user_exists
signing_in_lem = refl

api_device_session-signs_in_example :
    (d : Device) × (authenticate_device plain_hash home (strip (codes "d1")) (codes "tok") ≡ some d)
    × (d.owner_id ≡ 1)
    × (current_user_optional plain_hash signing_in.1 (some (codes "s")) 120
        ≡ (if ltb 120 (50 + 100) then get_user_by_id home 1 else none))
api_device_session-signs_in_example =
    Bridge.api_device_session-signs_in plain_hash home signing_in.1 (codes "d1") (codes "tok") []
      b's' 100 50 120 1 signing_in_lem

abbrev rounds : Text → Bytes → ℕ → Bytes
rounds password salt n = length password ∷ 255 ∷ []

verify_password-hash_password_example :
    (verify_password rounds
        (codes "hunter3")
        (hash_password rounds (codes "hunter22") (7 ∷ 200 ∷ []))
      ≡ text_eq
          (rounds (codes "hunter3") (7 ∷ 200 ∷ []) 200000)
          (rounds (codes "hunter22") (7 ∷ 200 ∷ []) 200000))
    × (verify_password rounds
          (codes "hunter22")
          (hash_password rounds (codes "hunter22") (7 ∷ 200 ∷ []))
        ≡ true)
verify_password-hash_password_example =
    RoundTrip.verify_password-hash_password rounds (codes "hunter22") (codes "hunter3")
      (7 ∷ 200 ∷ []) (omega arith, (omega arith, tt)) (omega arith, (omega arith, tt))
