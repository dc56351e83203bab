-- ===== src/Local/Ops/Restart.antt =====
-- A restarted node keeps its place and takes the changes that the call asks for.
use netrunner.Prelude.{
  String, false, ◌≡◌, ◌≢◌, refl, ap, inl, inr, some, arith, eq_iff, eq_refl, not,
}
use netrunner.Prelude.Action.{ok, when}
use netrunner.Prelude.Dict.{lookup, lookup-insert}
use netrunner.Host.{Host}
use netrunner.Local.Types.{LocalNode, State}
use netrunner.Local.Add.Cases.{add_node_stages}
use netrunner.Local.Ops.{Changes, restarted_config, restart_node, remove_node, share_maps}
use netrunner.Local.Ops.Steps.{remove_node_lem, remove_node-frame}
use netrunner.Local.Ops.Resume.{
  PlaceKeysDistinct, without_maps, IsPlaced, SamePlace, Started-SamePlace, keep_place-KeepsPlace,
}

-- With ports that are not reassigned, and different keys for the flags of directories and ports,
-- a node with staking files and ports that fit 16 bits that is restarted with success, running or
-- paused, runs in its place: same name, ID, directories and ports. Of every other node all is as
-- before but the maps of its configuration, which nodes may share.
pub restart_node-SamePlace :
    (H : Host) (s : State H) (n : LocalNode H) (ch : Changes)
    → PlaceKeysDistinct H.keys
    → s.network.reassign_ports_if_used ≡ false
    → lookup n.name s.network.nodes ≡ some n
    → IsPlaced H n
    → (restart_node H n.name ch s).0 ≡ ok tt
    → let t = (restart_node H n.name ch s).1 in
      ((m : LocalNode H) × (lookup n.name t.network.nodes ≡ some m)
        × SamePlace H n m
        × (m.paused ≡ false))
      × ((k : String)
          → k ≢ n.name
          → without_maps (lookup k t.network.nodes) ≡ without_maps (lookup k s.network.nodes))
unfolding restart_node
restart_node-SamePlace H s n ch keys fixed there placed h =
    let c = restarted_config H n ch in
    let s1 = share_maps H n.name n c s in
    let m1 = when (not n.paused) (remove_node H n.name) s1 in
    let s2 = m1.1 in
    let still = remove_node-frame H n.name s1 in
    let gone = (remove_node_lem H n.name s1).0 in
    elim (add_node_stages H c s2) [
      | inl (e, failed, same) ↦ absurd (ground arith)
      | inr (m, d) ↦
          let (place, live) =
            Started-SamePlace H c s2 n m (ground (arith, still)) placed (placed.named, refl, refl)
              (keep_place-KeepsPlace H n _ keys) d in
          (
            (
              m,
              ground (
                arith,
                d.added,
                place.name,
                lookup-insert m.name n.name m s2.network.nodes,
                eq_refl n.name,
              ),
              place,
              live,
            ),
            λ k other. ap without_maps (
                ground (
                  arith,
                  d.added,
                  place.name,
                  gone k,
                  lookup-insert m.name k m s2.network.nodes,
                  lookup-insert n.name k
                      (record n { config = record c { binary_path = n.config.binary_path } })
                      s.network.nodes,
                  eq_iff n.name k,
                )),
          )
    ]
