-- ===== src/Agent/Pairing/Stored.antt =====
-- agent/pairing.py with hub/app.py, `api_pair`: an agent that is started with a pairing code.
use vortex_portal.Base.{none, some}
use vortex_portal.Base.Text.{Text, codes, or_else, or_empty}
use vortex_portal.Base.Json.{Json, text, obj, Fields, end, field}
use vortex_portal.Base.Dict.{get}
use vortex_portal.Db.Schema.{Db}
use vortex_portal.Hub.Enrolment.{Enrolled, enrolled, denied, failed}
use vortex_portal.Agent.Pairing.{Disk, Inputs, Posted, responded}

-- The response of `/api/pair`: the credentials, or an error with a status.
unfoldable pub pair_response : Enrolled → Posted
pair_response (enrolled id tok shown urls) = responded 200 (
    some (
      obj (
        field (codes "device_id") (text id)
          (field (codes "token") (text tok) (field (codes "name") (text shown) end)))))
pair_response (denied status) = responded status none
pair_response failed = responded 500 none

-- The configuration of a device that got its credentials by a code.
abbrev pub config_of : Text → Text → Text → Text → Fields
config_of id tok hub_url shown = field (codes "device_id") (text id) (
    field (codes "token") (text tok)
      (field (codes "hub_url") (text hub_url) (field (codes "name") (text shown) end)))

abbrev pub started : Text → Text → Text → Text → Inputs
started account_token url code name = record {
  hub_url = url;
  code = code;
  account_token = account_token;
  device_name = name;
}

-- What the agent sends to the hub.
abbrev pub sent_name : Text → Disk → Text
sent_name name disk = or_else name (or_empty (get (codes "device_name") disk.draft))
