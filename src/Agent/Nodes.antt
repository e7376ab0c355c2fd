-- ===== src/Agent/Nodes.antt =====
-- agent/agent.py: `_candidate_urls`, `_connect_once` and `run_forever`, how an agent finds a node of
-- the hub and comes back to one. What happens on the network is an argument.
pub mod Failover
use vortex_portal.Base.{
  ℕ, ◌*◌, min, Bool, true, false, ◌&&◌, ◌||◌, not, Option, none, some, List, [], ◌∷◌, ◌++◌,
  if◌then◌else◌, map, ◌==◌, drop, length,
}
use vortex_portal.Base.Text.{
  Text, codes, text_eq, contains, non_empty, rstrip_slash, starts_with, strip,
}

-- The agent's configuration; a missing text is empty, a missing list too.
pub record AgentConfig : Type 0 where
  pub device_id : Text
  pub token : Text
  pub hub_url : Text
  pub nodes : List Text
  pub sync_url : Text
  pub sync_token : Text

-- The loop with `seen`: the texts that are not empty and not seen, in their order.
unfoldable pub unseen : List Text → List Text → List Text
unseen seen [] = []
unseen seen (u ∷ us) =
    let fresh = non_empty u && not (contains u seen) in
    let rest = unseen (if fresh then u ∷ seen else seen) us in if fresh then u ∷ rest else rest

-- `env_url` is HUB_URL.
unfoldable pub candidate_urls : Text → AgentConfig → List Text
unfolding unseen
candidate_urls env_url cfg =
    unseen [] (rstrip_slash env_url ∷ rstrip_slash cfg.hub_url ∷ map rstrip_slash cfg.nodes)

-- The acknowledgement of the hub.
pub record Ack : Type 0 where
  pub is_ok : Bool
  pub error : Text
  pub nodes : List Text
  pub sync_url : Text
  pub sync_token : Text

-- How a connection goes: it fails, the acknowledgement is no JSON, or it comes, and then the
-- socket ends normally, with a close code, or with a failure.
pub data Ending : Type 0 where
  ends : Ending
  closes : ℕ → Ending
  breaks : Ending

pub data Link : Type 0 where
  unreachable : Link
  malformed : Link
  acknowledged : Ack → Ending → Link

-- needle in text
unfoldable pub includes : Text → Text → Bool
includes needle [] = starts_with needle []
includes needle (c ∷ s) = starts_with needle (c ∷ s) || includes needle s

-- The URL of the socket; none for another scheme.
unfoldable pub ws_url : Text → Option Text
ws_url hub =
    if starts_with (codes "https://") hub
    then some (codes "wss://" ++ (drop 8 hub ++ codes "/ws/agent"))
    else if starts_with (codes "http://") hub
    then some (codes "ws://" ++ (drop 7 hub ++ codes "/ws/agent"))
    else none

unfoldable pub merged_nodes : Text → Ack → AgentConfig → List Text
unfolding unseen
merged_nodes base_url ack cfg =
    unseen [] (base_url ∷ (map rstrip_slash ack.nodes ++ map rstrip_slash cfg.nodes))

-- The configuration that a connection saves.
unfoldable pub remember : Text → Ack → AgentConfig → AgentConfig
unfolding merged_nodes
remember base_url ack cfg =
    let su = strip ack.sync_url in
    let st = strip ack.sync_token in
    let new = non_empty su && non_empty st in
    record cfg {
      hub_url = base_url;
      nodes = merged_nodes base_url ack cfg;
      sync_url = if new then su else cfg.sync_url;
      sync_token = if new then st else cfg.sync_token;
    }

-- True, False or None, as the code returns them.
abbrev pub ended : Ending → Option Bool
ended ends = some true
ended (closes code) = if code == 4001 then some false else none
ended breaks = none

module _ (lower : Text → Text) where
  abbrev pub rejected : Ack → Option Bool
  rejected ack =
      if non_empty ack.error && includes (codes "credentials") (lower ack.error)
      then some false
      else none

  abbrev pub linked : Text → AgentConfig → Link → Option Bool × AgentConfig
  linked base_url cfg unreachable = (none, cfg)
  linked base_url cfg malformed = (none, cfg)
  linked base_url cfg (acknowledged ack ending) =
      if ack.is_ok then (ended ending, remember base_url ack cfg) else (rejected ack, cfg)

  abbrev dial : Text → AgentConfig → Link → Option Text → Option Bool × AgentConfig
  dial base_url cfg link none = (none, cfg)
  dial base_url cfg link (some url) = linked base_url cfg link

  unfoldable pub connect_once : AgentConfig → Text → Link → Option Bool × AgentConfig
  unfolding ws_url includes remember
  connect_once cfg base_url link = dial base_url cfg link (ws_url base_url)

-- One round of `run_forever` over the candidates: fatal, served, or all unreachable.
pub data Round : Type 0 where
  fatal : AgentConfig → Round
  served : AgentConfig → Round
  exhausted : AgentConfig → Round

-- `attempt` is `_connect_once` on the network as it then is.
unfoldable pub try_each :
    (AgentConfig → Text → Option Bool × AgentConfig) → List Text → AgentConfig → Round
try_each attempt [] cfg = exhausted cfg
try_each attempt (url ∷ urls) cfg = elim (attempt cfg url).0 [
  | none ↦ try_each attempt urls (attempt cfg url).1
  | some b ↦ if b then served (attempt cfg url).1 else fatal (attempt cfg url).1
]

-- The waits of the rounds, in ticks with `second` to the second; `grown b` is what the floating
-- product b * 1.7 comes to.
module _ (second : ℕ) (grown : ℕ → ℕ) where
  unfoldable pub longer : ℕ → ℕ
  longer backoff = min (grown backoff) (60 * second)

  -- The backoff after a round, and the sleep before the next one.
  unfoldable pub after_round : ℕ → Round → Option ℕ × ℕ
  unfolding longer
  after_round backoff (fatal cfg) = (none, backoff)
  after_round backoff (served cfg) = (none, second)
  after_round backoff (exhausted cfg) = (some (longer backoff), longer backoff)
