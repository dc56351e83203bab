-- ===== src/Local/Names/Unique.antt =====
-- What `setNodeName` guarantees.
use netrunner.Prelude.{
  suc, ◌+◌, ◌<◌, false, ◌≡◌, ◌≢◌, length, arith, eq_iff, str_eq, Bool-cases, inl, inr,
  if◌then◌else◌,
}
use netrunner.Prelude.Action.{ok, err, repeated_name, Result-cases}
use netrunner.Prelude.Dict.{lookup, has}
use netrunner.Host.{Host}
use netrunner.Config.{NodeConfig}
use netrunner.Local.Types.{State}
use netrunner.Local.Names.{assigned, is_running, set_node_name}
use netrunner.Local.Names.Search.{
  search_suffix, search_suffix-ne-nil, node_name, search_suffix_total,
}

-- A successful call returns the configuration with a name that no running node has, the given name
-- if one was given; nodes, beacons and the world outside are as before.
pub set_node_name_sound :
    (H : Host) (c c' : NodeConfig) (s : State H)
    → (set_node_name H c s).0 ≡ ok c'
    → (is_running H (lookup c'.name s.network.nodes) ≡ false)
      × (c' ≡ record c { name = c'.name })
      × (c.name ≢ "" → c'.name ≡ c.name)
unfolding set_node_name assigned
set_node_name_sound H c c' s h = ground (arith, eq_iff c.name "")

pub set_node_name-frame :
    (H : Host) (c : NodeConfig) (s : State H)
    → let t = (set_node_name H c s).1 in
      (t.world ≡ s.world)
      × (t.network ≡ record s.network { next_node_suffix = t.network.next_node_suffix })
unfolding set_node_name
set_node_name-frame H c s = ground arith

-- A given name is refused exactly when a running node has it.
pub set_node_name-given :
    (H : Host) (c : NodeConfig) (s : State H)
    → c.name ≢ ""
    → (set_node_name H c s).0
      ≡ (if is_running H (lookup c.name s.network.nodes) then err (repeated_name c.name) else ok c)
unfolding set_node_name assigned
set_node_name-given H c s given = ground (arith, eq_iff c.name "")

-- Without a name, and where the 64-bit counter does not wrap within one step more than there are
-- nodes, the call finds one: the loop ends, and the name is a default name that no node of the
-- network has, paused or running.
pub set_node_name-generated :
    (H : Host) (c : NodeConfig) (s : State H)
    → c.name ≡ ""
    → s.network.next_node_suffix + suc (length s.network.nodes) < 18446744073709551616
    → (c' : NodeConfig) × ((set_node_name H c s).0 ≡ ok c')
      × (has c'.name s.network.nodes ≡ false)
      × (c'.name ≡ node_name (set_node_name H c s).1.network.next_node_suffix)
unfolding set_node_name assigned
set_node_name-generated H c s none_given small =
    let free = search_suffix_total s.network.next_node_suffix s.network.nodes small in
    elim (Result-cases
      (search_suffix (suc (length s.network.nodes)) s.network.next_node_suffix s.network.nodes)) [
        | inl ((name, suffix), found) ↦
            let (named, new) = rw found at free in
            (
              record c { name = name },
              ground (arith, eq_iff c.name ""),
              new,
              ground (arith, eq_iff c.name ""),
            )
        | inr (e, failed) ↦ absurd (rw failed at free)
      ]

-- A node is never started without a name.
pub set_node_name-ne-nil :
    (H : Host) (c c' : NodeConfig) (s : State H) → (set_node_name H c s).0 ≡ ok c' → c'.name ≢ ""
unfolding set_node_name assigned
set_node_name-ne-nil H c c' s h =
    let nodes = s.network.nodes in
    elim (Bool-cases (str_eq c.name "")) [
      | inr given ↦ ground (arith, eq_iff c.name "")
      | inl none_given ↦
          elim (Result-cases
            (search_suffix (suc (length nodes)) s.network.next_node_suffix nodes)) [
              | inl ((name, suffix), found) ↦ ground (
                arith,
                search_suffix-ne-nil (suc (length nodes)) s.network.next_node_suffix nodes name
                    suffix,
              )
              | inr (e, failed) ↦ absurd (ground arith)
            ]
    ]
