-- ===== src/Hub/Direct/Ticket.antt =====
-- hub/app.py and agent/agent.py: the ticket that an agent has announced is what opens it.
use vortex_portal.Base.{
  ℕ, suc, ◌≡◌, ◌≢◌, ◌⊎◌, inl, inr, refl, sym, ap, ◌∙◌, Bool-cases, Bool, true, ◌&&◌, Option, none,
  some, List, ◌∷◌, arith,
}
use vortex_portal.Base.Text.{Text, codes, text_eq, text_eq_refl, text_eq_iff}
use vortex_portal.Base.Json.{
  Json, null, bool, num, negative, text, arr, obj, Fields, end, field, lookup,
}
use vortex_portal.Db.Schema.{Db, Device}
use vortex_portal.Db.Devices.{get_device_for_user}
use vortex_portal.Router.Connection.{
  Connection, Outcome, done, type_error, handle_incoming, is_type,
}
use vortex_portal.Router.Registry.{Registry, write, get_conn}
use vortex_portal.Agent.Direct.{
  direct_info_msg, Greeting, welcomed, refused, is_hello, is_text, greet, texts,
}
use vortex_portal.Hub.Direct.{direct_answer, each_host, direct_of, device_direct}

-- The first message of a browser, with the ticket that it has.
unfoldable pub hello : Text → Json
hello ticket =
    obj (field (codes "type") (text (codes "hello")) (field (codes "ticket") (text ticket) end))

refused-not_welcomed : ◌≢◌ {A = Greeting} refused welcomed
refused-not_welcomed e = ground arith

greet-hello : (ticket : Text) → greet ticket (some (hello ticket)) ≡ welcomed
unfolding greet hello lookup text_eq
greet-hello ticket = rw (text_eq_refl ticket) refl

is_text-text : (t : Text) (v : Json) → is_text t v ≡ true → v ≡ text t
is_text-text t null e = ground arith
is_text-text t (bool b) e = ground arith
is_text-text t (num n) e = ground arith
is_text-text t (negative n) e = ground arith
is_text-text t (text s) e = ground (arith, text_eq_iff s t)
is_text-text t (arr vs) e = ground arith
is_text-text t (obj fs) e = ground arith

both : (a b : Bool) → (a && b) ≡ true → (a ≡ true) × (b ≡ true)
both a b e = ground arith

-- Nobody is let in without the ticket.
greet-welcomed :
    (ticket : Text) (first : Option Json)
    → (greet ticket first ≢ welcomed)
      ⊎ ((msg : Fields) × (first ≡ some (obj msg))
          × (is_type (codes "hello") msg ≡ true)
          × (lookup (codes "ticket") msg ≡ text ticket))
unfolding greet
greet-welcomed ticket none = inl (λ e. ground arith)
greet-welcomed ticket (some null) = inl (λ e. ground arith)
greet-welcomed ticket (some (bool b)) = inl (λ e. ground arith)
greet-welcomed ticket (some (num n)) = inl (λ e. ground arith)
greet-welcomed ticket (some (negative n)) = inl (λ e. ground arith)
greet-welcomed ticket (some (text t)) = inl (λ e. ground arith)
greet-welcomed ticket (some (arr vs)) = inl (λ e. ground arith)
greet-welcomed ticket (some (obj msg)) = elim (Bool-cases (is_hello ticket msg)) [
  | inl y ↦
      let (typed, same) =
        both (is_type (codes "hello") msg) (is_text ticket (lookup (codes "ticket") msg)) y in
      inr (msg, refl, typed, is_text-text ticket (lookup (codes "ticket") msg) same)
  | inr n ↦ inl (λ e. refused-not_welcomed (rw n at e))
]

announced :
    (port : ℕ) (h : Text) (hs : List Text) (ticket : Text) (c : Connection)
    → handle_incoming (direct_info_msg port (h ∷ hs) ticket) c
      ≡ done (record c { direct_info = some (num port, arr (texts (h ∷ hs)), text ticket) })
unfolding handle_incoming direct_info_msg lookup text_eq
announced port h hs ticket c = refl

abbrev info_of : Outcome → Option (Json × Json × Json)
info_of (done c) = c.direct_info
info_of type_error = none

written : (ref : ℕ) (c : Connection) (heap : ℕ → Connection) → write ref c heap ref ≡ c
written ref c heap = ground arith

-- The ticket reaches the browsers of the owner, and them it lets in: when an agent that serves
-- direct connections has announced its port, hosts and ticket over its connection, the owner's
-- question is answered with a URL for each host and that ticket, a hello with it is welcomed, and a
-- first message that is not a hello with it is not.
pub direct_ticket_opens :
    (str_of : Json → Text) (db : Db) (registry : Registry) (user_id ref port : ℕ) (d : Device)
    (device_id h ticket : Text) (hs : List Text) (first : Option Json) (c' : Connection)
    → get_device_for_user db device_id user_id ≡ some d
    → get_conn device_id registry ≡ some ref
    → handle_incoming (direct_info_msg (suc port) (h ∷ hs) ticket) (registry.heap ref) ≡ done c'
    → (device_direct str_of db
          (record registry { heap = write ref c' registry.heap })
          user_id
          device_id
        ≡ direct_answer (each_host str_of (num (suc port)) (texts (h ∷ hs))) (text ticket))
      × (greet ticket (some (hello ticket)) ≡ welcomed)
      × ((greet ticket first ≢ welcomed)
          ⊎ ((msg : Fields) × (first ≡ some (obj msg))
              × (is_type (codes "hello") msg ≡ true)
              × (lookup (codes "ticket") msg ≡ text ticket)))
unfolding device_direct get_conn
direct_ticket_opens str_of db registry user_id ref port d device_id h ticket hs first c' mine here
      told =
    let info : c'.direct_info ≡ some (num (suc port), arr (texts (h ∷ hs)), text ticket) =
      ap info_of (sym told ∙ announced (suc port) h hs ticket (registry.heap ref)) in
    (
      rw (mine, here)
          (ap (direct_of str_of)
            (ap (λ (c : Connection). c.direct_info) (written ref c' registry.heap) ∙ info)),
      greet-hello ticket,
      greet-welcomed ticket first,
    )
