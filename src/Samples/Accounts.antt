-- ===== src/Samples/Accounts.antt =====
-- Sessions, pairing codes, users, devices and the housekeeping at the sample database.
use vortex_portal.Base.{◌==◌, ◌&&◌, not, ◌≡◌, refl, inl, true, false, none, some, [], ◌∷◌, arith}
use vortex_portal.Base.Text.{codes, text_eq}
use vortex_portal.Base.Table.{find, delete, update, matches}
use vortex_portal.Db.Schema.{Db, User, PairingCode, user_exists}
use vortex_portal.Db.Sessions.{create_session, lookup_session}
use vortex_portal.Db.Sessions.Lifetime
use vortex_portal.Db.Sessions.Lifetime.{creates, deletes, purges}
use vortex_portal.Db.Pairing.{
  create_pairing_code, consume_pairing_code, six_digits, usable, stale, has_code,
}
use vortex_portal.Db.Pairing.Once
use vortex_portal.Db.Pairing.Redeem
use vortex_portal.Db.Users.{consume_invite, invite_is_valid}
use vortex_portal.Db.Users.Consumption
use vortex_portal.Db.Devices.{get_device_for_user, update_device_name, update_device, delete_device}
use vortex_portal.Db.Devices.Ownership
use vortex_portal.Db.Purge.{purge_expired}
use vortex_portal.Db.Purge.Visibility
use vortex_portal.Db.Nodes.{list_node_endpoints, get_device_presence}
use vortex_portal.Db.Locks.{get_lock}
use vortex_portal.Samples.{plain_hash, home, open_invite}

abbrev logged_in : Db
logged_in = record home {
  sessions =
      (record { token_hash = codes "htok"; user_id = 1; created_at = 100; expires_at = 400 }) ∷ [];
}

session_lifetime_example :
    lookup_session plain_hash
      (Lifetime.run plain_hash logged_in
        (creates 1 (codes "new") 300 150 ∷ deletes (codes "old") ∷ purges 400 ∷ []))
      (codes "tok")
      399
    ≡ some 1
unfolding create_session user_exists find text_eq
session_lifetime_example =
    Lifetime.session_lifetime plain_hash home logged_in 1 300 100 (codes "tok")
      (creates 1 (codes "new") 300 150 ∷ deletes (codes "old") ∷ purges 400 ∷ []) 399 refl
      (ground arith, (ground arith, (omega arith, tt)))

abbrev phone_code : PairingCode
phone_code = record {
  code = codes "000042";
  user_id = 1;
  device_name = some (codes "tv");
  expires_at = 700;
  used = false;
}

abbrev pairing : Db
pairing = record home { pairing_codes = phone_code ∷ [] }

pairing_code_once_example :
    (consume_pairing_code
      (Once.run
        (consume_pairing_code pairing (codes "000042") 150).1
        (Once.creates 1 none 7 160 ∷ Once.consumes (codes "000042") 170 ∷ Once.purges 200 ∷ []))
      (codes "000042")
      300).0
    ≡ none
unfolding consume_pairing_code find text_eq matches six_digits
pairing_code_once_example =
    Once.pairing_code_once pairing (codes "000042") 150 (1, some (codes "tv"))
      (Once.creates 1 none 7 160 ∷ Once.consumes (codes "000042") 170 ∷ Once.purges 200 ∷ []) 300
      refl (ground arith, (tt, (tt, tt)))

pairing_code_redeems_example :
    (consume_pairing_code
      (Once.run pairing
        (Once.creates 2 none 7 160 ∷ Once.consumes (codes "000007") 170 ∷ Once.purges 700 ∷ []))
      (codes "000042")
      699).0
    ≡ some (1, some (codes "tv"))
unfolding create_pairing_code delete user_exists find text_eq six_digits
pairing_code_redeems_example =
    Redeem.pairing_code_redeems home pairing 1 42 100 (some (codes "tv")) (codes "000042")
      (Once.creates 2 none 7 160 ∷ Once.consumes (codes "000007") 170 ∷ Once.purges 700 ∷ []) 699
      refl ((omega arith, omega arith), (ground arith, (omega arith, tt))) (omega arith)

abbrev bob_code : PairingCode
bob_code = record {
  code = codes "000007";
  user_id = 2;
  device_name = none;
  expires_at = 650;
  used = false;
}

abbrev both_codes : Db
both_codes = record home { pairing_codes = phone_code ∷ bob_code ∷ [] }

create_pairing_code-collision_example :
    let (answer, db') = create_pairing_code both_codes 1 none 7 100 in
    (answer ≡ none)
    × (db'.pairing_codes ≡ delete (stale 1 100) both_codes.pairing_codes)
    × (find (has_code (codes "000007")) db'.pairing_codes ≡ some bob_code)
    × (find (λ c. c.user_id == 1 && not c.used) db'.pairing_codes ≡ none)
unfolding find text_eq six_digits
create_pairing_code-collision_example =
    Redeem.create_pairing_code-collision both_codes 1 7 100 none bob_code refl refl
      (inl (omega arith)) (omega arith)

abbrev taken : Db
taken = record home { invites = record open_invite { used_by = some 1; used_at = some 50 } ∷ [] }

consume_invite_once_example :
    (true ≡ invite_is_valid home (codes "inv"))
    × (invite_is_valid taken (codes "inv") ≡ false)
    × (invite_is_valid taken (codes "other") ≡ invite_is_valid home (codes "other"))
unfolding consume_invite matches update user_exists find text_eq
consume_invite_once_example =
    Consumption.consume_invite_once home taken (codes "inv") (codes "other") 1 50 true refl
      (ground arith)

abbrev bob : User
bob = record {
  id = 2;
  username = codes "bob";
  password_hash = codes "y";
  is_admin = false;
  created_at = 60;
}

foreign_device_untouched_example :
    (update_device_name home (codes "d1") 2 (codes "mine") ≡ (false, home))
    × (update_device home (codes "d1") 2 (codes "mine") none ≡ (false, home))
    × (delete_device home (codes "d1") 2 ≡ (false, home))
unfolding get_device_for_user find text_eq
foreign_device_untouched_example =
    Ownership.foreign_device_untouched home (codes "d1") (codes "mine") none 2 refl

purge_expired-invisible_example :
    let db' = purge_expired logged_in 200 in
    (lookup_session plain_hash db' (codes "tok") 250
      ≡ lookup_session plain_hash logged_in (codes "tok") 250)
    × (get_lock db' (codes "d1") 250 ≡ get_lock logged_in (codes "d1") 250)
    × (find (usable (codes "000042") 250) db'.pairing_codes
        ≡ find (usable (codes "000042") 250) logged_in.pairing_codes)
    × (list_node_endpoints db' 120 250 ≡ list_node_endpoints logged_in 120 250)
    × (get_device_presence db' (codes "d1") 120 250
        ≡ get_device_presence logged_in (codes "d1") 120 250)
purge_expired-invisible_example =
    Visibility.purge_expired-invisible plain_hash logged_in (codes "tok") (codes "d1")
      (codes "000042") 120 200 250 (omega arith) (omega arith)
