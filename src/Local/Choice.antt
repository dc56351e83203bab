-- ===== src/Local/Choice.antt =====
-- local/blockchain.go: the node that the network's own requests go to (`getNode`).
pub mod Least
use netrunner.Prelude.{
  ℕ, Bool, true, false, String, ltb, List, [], ◌∷◌, Option, none, some, if◌then◌else◌,
}
use netrunner.Prelude.Dict.{Dict}
use netrunner.Host.{Host}
use netrunner.Local.Types.{LocalNode}
use netrunner.Local.Ports.{max_port}

-- `minAPIPortNumber` and `node` of the loop
pub record Candidate (H : Host) : Type 0 where
  pub min_port : ℕ
  pub node : Option (LocalNode H)

module _ (H : Host) where
  -- one round of the loop
  unfoldable pub better : LocalNode H → Candidate H → Candidate H
  better n c =
      if n.paused
      then c
      else if ltb n.api_port c.min_port
      then record { min_port = n.api_port; node = some n }
      else c

  unfoldable pub best : Dict (LocalNode H) → Candidate H → Candidate H
  best [] c = c
  best ((name, n) ∷ nodes) c = best nodes (better n c)

  unfoldable pub choose_node : Dict (LocalNode H) → Option (LocalNode H)
  choose_node nodes = (best nodes (record { min_port = max_port; node = none })).node
