-- ===== src/Samples/Handlers.antt =====
-- The hub's handlers at the sample database.
use vortex_portal.Base.{
  ℕ, ◌≡◌, ◌≢◌, ◌≤◌, ◌⊎◌, refl, Bool, false, ◌&&◌, Option, none, some, [], ◌∷◌, arith, leb, length,
}
use vortex_portal.Base.Text.{Text, codes, text_eq, strip, rstrip_slash, contains}
use vortex_portal.Base.Table.{find, matches, update, select}
use vortex_portal.Base.Sort.{order_by}
use vortex_portal.Base.Dict.{get}
use vortex_portal.Db.Schema.{Db, user_exists, device_exists}
use vortex_portal.Db.Users.{
  create_user, get_user_by_username, user_count, consume_invite, invite_is_valid,
}
use vortex_portal.Db.Sessions.{create_session}
use vortex_portal.Db.Devices.{create_device, authenticate_device}
use vortex_portal.Db.Pairing.{consume_pairing_code}
use vortex_portal.Db.Tokens.{account_token_user}
use vortex_portal.Db.Nodes.{list_node_endpoints, get_device_presence, clean_url}
use vortex_portal.Router.Connection.{new_connection}
use vortex_portal.Router.Registry.{get_conn}
use vortex_portal.Auth.Cookies.{login}
use vortex_portal.Auth.RateLimit.{Limiter, rate_check}
use vortex_portal.Hub.Accounts.LoggingIn
use vortex_portal.Hub.Accounts.{login_post, Answer, Draw, Form, invite_mode, mode_of, register_post}
use vortex_portal.Hub.Accounts.Registering
use vortex_portal.Hub.Accounts.Registering.{Admission, member_of}
use vortex_portal.Hub.Enrolment.{api_pair, api_enroll}
use vortex_portal.Hub.Enrolment.Credentials
use vortex_portal.Hub.Enrolment.Credentials.{owner}
use vortex_portal.Hub.Agents.{Node, leave}
use vortex_portal.Hub.Agents.Superseded
use vortex_portal.Samples.{plain_hash, home}

abbrev letter : ℕ → Bool
letter c = leb b'a' c && leb c b'z'

abbrev form : Form
form = record {
  invite = codes " inv";
  username = codes "bob ";
  password = codes "longenough";
  password2 = codes "longenough";
}

abbrev draw : Draw
draw = record { password_hash = codes "h"; token = codes "t"; ttl = 300; now = 50; rival = none }

-- Another registration redeems the invite in the meantime.
abbrev late : Draw
late = record draw { rival = some (record { code = codes "inv"; user_id = 1; now = 49 }) }

abbrev registered : Db
registered = (register_post plain_hash letter home invite_mode form draw).1

register_post-admits_example :
    (get_user_by_username registered (strip form.username)
      ≡ some (member_of home (strip form.username) draw))
    × ((user_count home ≡ 0)
        ⊎ Admission home (mode_of home invite_mode) (strip form.invite) registered)
    × (form.password ≡ form.password2)
    × (8 ≤ length form.password)
unfolding register_post create_user get_user_by_username consume_invite invite_is_valid
    create_session login find matches update user_exists text_eq strip user_count
register_post-admits_example =
    Registering.register_post-admits plain_hash letter home registered invite_mode form draw
      (codes "t") refl

abbrev coded : Db
coded = record home {
  pairing_codes =
      (record {
        code = codes "000042";
        user_id = 1;
        device_name = none;
        expires_at = 700;
        used = false;
      })
      ∷ [];
  account_tokens =
      (record {
        id = 1;
        user_id = 1;
        token_hash = codes "hacct";
        label = none;
        created_at = 5;
        last_used = none;
      })
      ∷ [];
}

abbrev paired : Db
paired = (api_pair plain_hash coded (codes "000042") (codes "tv") (codes "d9") (codes "k") 100).1

api_pair-authenticates_example :
    (user_id : ℕ) × (noted : Option Text) × ((consume_pairing_code coded
        (strip (codes "000042"))
        100).0
      ≡ some (user_id, noted))
    × (owner (authenticate_device plain_hash paired (codes "d9") (codes "k")) ≡ some user_id)
unfolding api_pair consume_pairing_code create_device find matches update user_exists device_exists
    text_eq strip
api_pair-authenticates_example =
    Credentials.api_pair-authenticates plain_hash coded paired (codes "000042") (codes "tv")
      (codes "d9") (codes "k") (codes "d9") (codes "k") (codes "tv") [] 100 refl

abbrev claimed : Db
claimed =
    (api_enroll plain_hash coded (codes "acct") (codes "tv") (codes "d9") (codes "k")
      (codes "http://n/") 100).1

api_enroll-authenticates_example :
    (user_id : ℕ) × ((account_token_user plain_hash coded (strip (codes "acct")) 100).0
      ≡ some user_id)
    × (owner (authenticate_device plain_hash claimed (codes "d9") (codes "k")) ≡ some user_id)
unfolding api_enroll account_token_user create_device find update user_exists device_exists text_eq
    strip rstrip_slash contains list_node_endpoints order_by select
api_enroll-authenticates_example =
    Credentials.api_enroll-authenticates plain_hash coded claimed (codes "acct") (codes "tv")
      (codes "d9") (codes "k") (codes "http://n/") (codes "d9") (codes "k") (codes "tv")
      (codes "http://n" ∷ []) 100 refl

-- The phone's second connection, on the node that had the first.
abbrev node : Node
node = record {
  db = record home {
    device_presence =
        (record { device_id = codes "d1"; node_url = codes "http://n"; last_seen = 90 }) ∷ [];
  };
  registry = record {
    conns = (codes "d1", 2) ∷ [];
    heap = λ _. new_connection (codes "d1") 1 (codes "phone");
    closes = [];
  };
}

leave-superseded_example :
    (get_conn (codes "d1") (leave (codes "http://n") 1 node).registry ≡ some 2)
    × (get_device_presence (leave (codes "http://n") 1 node).db (codes "d1") 60 100
        ≢ some (clean_url (codes "http://n")))
unfolding get_conn get text_eq new_connection
leave-superseded_example =
    Superseded.leave-superseded node (codes "http://n") (codes "d1") 1 2 60 100 refl refl
      (ground arith) refl

abbrev plain_check : Text → Text → Bool
plain_check password stored = text_eq password stored

abbrev idle : Limiter
idle = record { fail_log = []; block_until = [] }

abbrev entered : Answer × Db × Limiter
entered =
    login_post plain_hash plain_check 10 (codes "ip") (codes "ann ") (codes "x") draw 70 home idle

login_post-proves_example :
    LoggingIn.Proven plain_hash plain_check 10
      (get_user_by_username home (strip (codes "ann ")))
      (codes "x")
      draw
      entered.1
      (codes "t")
      60
    × ((rate_check 10 (codes "ip") 70 idle).0 ≡ 0)
    × ((rate_check 10 (codes "ip") 80 entered.2).0 ≡ 0)
unfolding login_post rate_check get get_user_by_username login create_session find user_exists
    text_eq strip
login_post-proves_example =
    LoggingIn.login_post-proves plain_hash plain_check 10 (codes "ip") (codes "ann ") (codes "x")
      (codes "t") draw 70 80 60 home entered.1 idle entered.2 refl
