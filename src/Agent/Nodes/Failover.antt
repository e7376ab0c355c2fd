-- ===== src/Agent/Nodes/Failover.antt =====
-- agent/agent.py: the list of nodes that an agent keeps.
use vortex_portal.Base.{◌≡◌, ◌⊎◌, Bool, true, false, ◌&&◌, not, List, [], ◌∷◌, ◌++◌, map}
use vortex_portal.Base.Text.{Text, contains, non_empty, rstrip_slash}
use vortex_portal.Agent.Nodes.{AgentConfig, candidate_urls, Ack}

-- No text twice, and none of those given.
unfoldable pub are_new : List Text → List Text → Bool
are_new seen [] = true
are_new seen (u ∷ us) = non_empty u && not (contains u seen) && are_new (u ∷ seen) us

abbrev IsClean : Text → Type 0
IsClean u = rstrip_slash u ≡ u

-- What a list of nodes promises of the round that follows.
abbrev pub Remembers : Text → List Text → Text → AgentConfig → Type 0
Remembers base named u cfg' =
    (candidate_urls [] cfg' ≡ cfg'.nodes)
    × ((rest : List Text) × (cfg'.nodes ≡ base ∷ rest))
    × (are_new [] cfg'.nodes ≡ true)
    × (((non_empty u && contains u named) ≡ false) ⊎ (contains u cfg'.nodes ≡ true))

named_nodes : Ack → AgentConfig → List Text
named_nodes ack cfg = map rstrip_slash ack.nodes ++ map rstrip_slash cfg.nodes
