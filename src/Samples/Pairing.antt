-- ===== src/Samples/Pairing.antt =====
-- An agent that is started with a pairing code.
use vortex_portal.Base.{Bool, true, false, none, [], ◌∷◌}
use vortex_portal.Base.Text.{Text, codes}
use vortex_portal.Base.Json.{Fields}
use vortex_portal.Db.Schema.{Db}
use vortex_portal.Hub.Enrolment.{enrolled, api_pair}
use vortex_portal.Agent.Pairing.{Disk, Terminal, Posted, unreachable, no_inputs}
use vortex_portal.Agent.Pairing.Stored
use vortex_portal.Agent.Pairing.Stored.{pair_response}
use vortex_portal.Samples.{plain_hash, home}

abbrev coded : Db
coded = record home {
  pairing_codes =
      (record {
        code = codes "000042";
        user_id = 1;
        device_name = none;
        expires_at = 700;
        used = false;
      })
      ∷ [];
}

abbrev paired : Db
paired = (api_pair plain_hash coded (codes "000042") (codes "tv") (codes "d9") (codes "k") 100).1

abbrev blank : Disk
blank = record { config = none; draft = [] }

abbrev no_terminal : Terminal
no_terminal = record { is_tty = false; typed = no_inputs }

abbrev digits : Text → Bool
digits t = true

abbrev hub_post : Text → Text → Fields → Posted
hub_post url path payload = pair_response (enrolled (codes "d9") (codes "k") (codes "tv") [])

abbrev dead_post : Text → Text → Fields → Posted
dead_post url path payload = unreachable
