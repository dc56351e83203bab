-- ===== src/Local/Ops/Steps.antt =====
-- What the operations on nodes do to the network.
use mathlib.Core.Option
use netrunner.Prelude.{
  String, true, ◌≡◌, refl, inl, inr, List, [], ◌∷◌, none, some, arith, str_eq, eq_iff,
  if◌then◌else◌, ◌==◌, Option-cases,
}
use netrunner.Prelude.Action.{Result, ok, err, exited, node_not_found, already_paused}
use netrunner.Prelude.Dict.{
  lookup, keys, contains, lookup-insert, lookup-remove, has→contains-keys, eq-nil_of_lookup,
}
use netrunner.Host.{Host}
use netrunner.Local.Types.{LocalNode, State}
use netrunner.Local.Ops.{remove_node, pause_node, stop_all, stop}

-- what `Stop` of a node's process reports
abbrev pub exit_result : (H : Host) → LocalNode H → H.World → Result (Unit {0})
exit_result H n w =
    if (H.stop_process n.process w).0 == 0
    then ok tt
    else err (exited n.name (H.stop_process n.process w).0)

-- Removing a node takes it out of the network and leaves all other nodes alone, whatever its process
-- does. The call fails if there is no such node, or if it was running and its process ends with
-- another exit code than 0.
pub remove_node_lem :
    (H : Host) (name : String) (s : State H)
    → ((k : String)
        → lookup k (remove_node H name s).1.network.nodes
          ≡ (if str_eq name k then none else lookup k s.network.nodes))
      × ((remove_node H name s).0 ≡ (elim (lookup name s.network.nodes) [
        | none ↦ err (node_not_found name)
        | some n ↦ if n.paused then ok tt else exit_result H n s.world
      ]))
unfolding remove_node
remove_node_lem H name s =
    (λ k. ground (arith, lookup-remove name k s.network.nodes, eq_iff name k), ground arith)

stop_all_nodes :
    (H : Host) (names : List String) (s : State H) (k : String)
    → lookup k (stop_all H names s).1.network.nodes
      ≡ (if contains k names then none else lookup k s.network.nodes)
unfolding stop_all
stop_all_nodes H [] s k = refl
stop_all_nodes H (name ∷ names) s k =
    ground
      (arith, stop_all_nodes H names (remove_node H name s).1 k, (remove_node_lem H name s).0 k)

-- Stopping leaves no node in the network, whatever the processes do.
pub stop_empties : (H : Host) (s : State H) → (stop H s).1.network.nodes ≡ []
unfolding stop
stop_empties H s = eq-nil_of_lookup _ λ k.
    ground (arith, stop_all_nodes H (keys s.network.nodes) s k, has→contains-keys k s.network.nodes)

abbrev pub if_stops : (H : Host) → H.World → LocalNode H → LocalNode H
if_stops H w n =
    if n.paused
    then n
    else if (H.stop_process n.process w).0 == 0
    then record n { paused = true }
    else n

-- Pausing marks the node, and nothing else of it, if it was running and its process ends with exit
-- code 0; the call succeeds exactly then. In every other case, and for every other node, the node
-- is as before.
pub pause_node_lem :
    (H : Host) (name : String) (s : State H)
    → ((k : String)
        → lookup k (pause_node H name s).1.network.nodes ≡ (
            if str_eq name k
            then Option.map (if_stops H s.world) (lookup name s.network.nodes)
            else lookup k s.network.nodes))
      × ((pause_node H name s).0 ≡ (elim (lookup name s.network.nodes) [
        | none ↦ err (node_not_found name)
        | some n ↦ if n.paused then err already_paused else exit_result H n s.world
      ]))
unfolding pause_node
pause_node_lem H name s = (
  λ k. elim (Option-cases (lookup name s.network.nodes)) [
    | inl e ↦ ground (arith, eq_iff name k)
    | inr (n, e) ↦
        ground
          (arith, eq_iff name k, lookup-insert name k (record n { paused = true }) s.network.nodes)
  ],
  ground arith,
)

-- Removing a node touches only the nodes and the beacons.
pub remove_node-frame :
    (H : Host) (name : String) (s : State H)
    → (remove_node H name s).1.network ≡ record s.network {
      nodes = (remove_node H name s).1.network.nodes;
      bootstraps = (remove_node H name s).1.network.bootstraps;
    }
unfolding remove_node
remove_node-frame H name s = ground arith

pub stop_all-frame :
    (H : Host) (names : List String) (s : State H)
    → (stop_all H names s).1.network ≡ record s.network {
      nodes = (stop_all H names s).1.network.nodes;
      bootstraps = (stop_all H names s).1.network.bootstraps;
    }
unfolding stop_all
stop_all-frame H [] s = refl
stop_all-frame H (name ∷ names) s =
    ground (arith, stop_all-frame H names (remove_node H name s).1, remove_node-frame H name s)
