-- ===== src/Samples/Direct.antt =====
-- A phone that has announced its direct-connect server.
use vortex_portal.Base.{◌≡◌, ◌≢◌, ◌⊎◌, refl, true, some, List, [], ◌∷◌}
use vortex_portal.Base.Text.{Text, codes, text_eq}
use vortex_portal.Base.Json.{Json, arr, text, num, obj, Fields, lookup}
use vortex_portal.Base.Table.{find}
use vortex_portal.Base.Dict.{get}
use vortex_portal.Db.Devices.{get_device_for_user}
use vortex_portal.Router.Connection.{Connection, is_type, new_connection, handle_incoming}
use vortex_portal.Router.Registry.{Registry, write, get_conn}
use vortex_portal.Agent.Direct.{direct_info_msg, texts, greet, welcomed}
use vortex_portal.Hub.Direct.{direct_answer, each_host, device_direct}
use vortex_portal.Hub.Direct.Ticket
use vortex_portal.Hub.Direct.Ticket.{hello}
use vortex_portal.Samples.{phone, home}

abbrev quiet : Connection
quiet = new_connection (codes "d1") 1 (codes "phone")

abbrev online : Registry
online = record { conns = (codes "d1", 3) ∷ []; heap = λ _. quiet; closes = [] }

abbrev address : List Text
address = codes "10.0.0.2" ∷ []

abbrev announced : Connection
announced = record quiet { direct_info = some (num 8770, arr (texts address), text (codes "tk")) }

abbrev shown : Json → Text
shown v = codes "x"

direct_ticket_opens_example :
    (device_direct shown home
        (record online { heap = write 3 announced online.heap })
        1
        (codes "d1")
      ≡ direct_answer (each_host shown (num 8770) (texts address)) (text (codes "tk")))
    × (greet (codes "tk") (some (hello (codes "tk"))) ≡ welcomed)
    × ((greet (codes "tk") (some (hello (codes "no"))) ≢ welcomed)
        ⊎ ((msg : Fields) × (some (hello (codes "no")) ≡ some (obj msg))
            × (is_type (codes "hello") msg ≡ true)
            × (lookup (codes "ticket") msg ≡ text (codes "tk"))))
unfolding get_device_for_user find text_eq get_conn get handle_incoming direct_info_msg lookup
direct_ticket_opens_example =
    Ticket.direct_ticket_opens shown home online 1 3 8769 phone (codes "d1") (codes "10.0.0.2")
      (codes "tk") [] (some (hello (codes "no"))) announced refl refl refl
