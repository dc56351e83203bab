-- ===== src/Local/Names.antt =====
-- local/network.go: names of nodes (`setNodeName`, `isPausedNode`).
pub mod Search
pub mod Unique
use netrunner.Prelude.{
  ℕ, suc, String, Bool, true, false, not, ◌<>◌, Option, none, some, str_eq, if◌then◌else◌, length,
}
use netrunner.Prelude.Action.{
  Action, Result, ok, err, pure, lift, modify, refuse_if, repeated_name, ◌>>=◌, ◌>>◌,
}
use netrunner.Prelude.Dict.{lookup}
use netrunner.Host.{Host}
use netrunner.Config.{NodeConfig}
use netrunner.Local.Types.{LocalNode, LocalNetwork, State}
use Search.{search_suffix, node_name}

module _ (H : Host) where
  -- if len(nodeConfig.Name) == 0 { for { ... } }
  unfoldable pub assigned : LocalNetwork H → String → Result (String × ℕ)
  unfolding search_suffix
  assigned ln name =
      if str_eq name ""
      then search_suffix (suc (length ln.nodes)) ln.next_node_suffix ln.nodes
      else ok (name, ln.next_node_suffix)

  abbrev pub is_running : Option (LocalNode H) → Bool
  is_running none = false
  is_running (some n) = not n.paused

  unfoldable pub set_node_name : NodeConfig → Action (State H) NodeConfig
  unfolding assigned
  set_node_name c s =
      (do
        (name, suffix) ← lift (assigned s.network c.name)
        modify (λ t. record t { network = record s.network { next_node_suffix = suffix } })
        refuse_if (is_running (lookup name s.network.nodes)) (repeated_name name)
        pure (record c { name = name }))
        s

  abbrev is_paused : Option (LocalNode H) → Bool
  is_paused none = false
  is_paused (some n) = n.paused

  unfoldable pub is_paused_node : LocalNetwork H → String → Bool
  is_paused_node ln name = is_paused (lookup name ln.nodes)
