-- ===== src/Local/Add/Cases.antt =====
-- The outcomes of `addNode`.
use netrunner.Prelude.{Bool, false, ◌≡◌, ◌⊎◌, inl, inr, some, arith}
use netrunner.Prelude.Action.{ok, err, Error, after, Result-cases, is_ok}
use netrunner.Prelude.Dict.{lookup, insert}
use netrunner.Host.{Host}
use netrunner.Config.{NodeConfig}
use netrunner.Local.Types.{LocalNode, LocalNetwork, State}
use netrunner.Local.Names.{set_node_name, is_running, is_paused_node}
use netrunner.Local.Names.Unique.{set_node_name_sound, set_node_name-frame}
use netrunner.Local.Add.{add_node, complete_config, launch, join_beacons, on_world, put_node}

-- Nothing of the network changed but, perhaps, the counter of default names.
abbrev pub SameNetwork : {H : Host} → LocalNetwork H → LocalNetwork H → Type 0
SameNetwork a b = b ≡ record a { next_node_suffix = b.next_node_suffix }

-- `n` is in the network, under its name, and all else is as before but for the beacons and the
-- counter of default names.
abbrev pub Added : {H : Host} → LocalNetwork H → LocalNode H → LocalNetwork H → Type 0
Added a n b = b ≡ record a {
  next_node_suffix = b.next_node_suffix;
  bootstraps = b.bootstraps;
  nodes = insert n.name n a.nodes;
}

-- What a node that was just started looks like.
pub record IsLaunched (H : Host) (ln : LocalNetwork H) (n : LocalNode H) : Type 0 where
  pub is_live : n.paused ≡ false
  pub named : n.name ≡ n.config.name
  pub fresh : is_running H (lookup n.name ln.nodes) ≡ false
  pub identified : H.node_id_of n.config.staking_key n.config.staking_cert ≡ some n.node_id
  pub network : n.network_id ≡ ln.network_id

pub launch_sound :
    (H : Host) (ln : LocalNetwork H) (c : NodeConfig) (w : H.World) (n : LocalNode H)
    → (launch H ln c w).0 ≡ ok n
    → (n.paused ≡ false)
      × (n.name ≡ c.name)
      × (n.config ≡ c)
      × (H.node_id_of c.staking_key c.staking_cert ≡ some n.node_id)
      × (n.network_id ≡ ln.network_id)
unfolding launch
launch_sound H ln c w n h = ground arith

-- A call of `addNode` that got as far as a running process for the node `n`.
pub record Started (H : Host) (c : NodeConfig) (s : State H) (n : LocalNode H) : Type 0 where
  pub completed : NodeConfig
  pub named : NodeConfig
  pub completes : (complete_config H s.network c s.world).0 ≡ ok completed
  pub names :
      (set_node_name H completed (after (on_world H (complete_config H s.network c)) s)).0
      ≡ ok named
  pub launches : (w : H.World) × ((launch H s.network named w).0 ≡ ok n)
  pub result : ((add_node H c s).0 ≡ ok n) ⊎ (is_ok (add_node H c s).0 ≡ false)
  pub added : Added s.network n (add_node H c s).1.network
  pub beacons :
      ((add_node H c s).1.network.bootstraps ≡ s.network.bootstraps)
      ⊎ (H.add_beacon n.node_id n.p2p_port s.network.bootstraps
          ≡ some (add_node H c s).1.network.bootstraps)

join_beacons_result :
    (H : Host) (p : Bool) (n : LocalNode H) (s : State H)
    → (((join_beacons H p n s).0 ≡ ok n) ⊎ (is_ok (join_beacons H p n s).0 ≡ false))
      × ((join_beacons H p n s).1.network
          ≡ record s.network { bootstraps = (join_beacons H p n s).1.network.bootstraps })
      × (((join_beacons H p n s).1.network.bootstraps ≡ s.network.bootstraps)
          ⊎ (H.add_beacon n.node_id n.p2p_port s.network.bootstraps
              ≡ some (join_beacons H p n s).1.network.bootstraps))
unfolding join_beacons
join_beacons_result H p n s = (ground arith, ground arith, ground arith)

pub add_node_stages :
    (H : Host) (c : NodeConfig) (s : State H)
    → let t = (add_node H c s).1 in
      ((e : Error) × ((add_node H c s).0 ≡ err e) × SameNetwork s.network t.network)
      ⊎ ((n : LocalNode H) × Started H c s n)
unfolding add_node
add_node_stages H c s = elim (Result-cases (complete_config H s.network c s.world).0) [
  | inr (e, x) ↦ inl (e, ground arith, ground arith)
  | inl (c1, x) ↦
      let s1 = after (on_world H (complete_config H s.network c)) s in
      elim (Result-cases (set_node_name H c1 s1).0) [
        | inr (e, y) ↦ inl (e, ground arith, ground (arith, set_node_name-frame H c1 s1))
        | inl (c2, y) ↦
            let s2 = after (set_node_name H c1) s1 in
            elim (Result-cases (launch H s.network c2 s2.world).0) [
              | inr (e, z) ↦ inl (e, ground arith, ground (arith, set_node_name-frame H c1 s1))
              | inl (n, z) ↦
                  let s3 = after (on_world H (launch H s.network c2)) s2 in
                  let joined =
                    join_beacons_result H (is_paused_node H s.network c2.name) n
                      (put_node H n s3) in
                  inr (
                    n,
                    record {
                      completed = c1;
                      named = c2;
                      completes = x;
                      names = y;
                      launches = (s2.world, z);
                      result = ground (arith, joined);
                      added = ground (arith, joined, set_node_name-frame H c1 s1);
                      beacons = ground (arith, joined, set_node_name-frame H c1 s1);
                    },
                  )
            ]
      ]
]

pub Started-IsLaunched :
    (H : Host) (c : NodeConfig) (s : State H) (n : LocalNode H)
    → Started H c s n
    → IsLaunched H s.network n
Started-IsLaunched H c s n d =
    let sound =
      set_node_name_sound H d.completed d.named
        (after (on_world H (complete_config H s.network c)) s) d.names in
    let shape = launch_sound H s.network d.named d.launches.0 n d.launches.1 in
    record {
      is_live = shape.0;
      named = ground (arith, shape);
      fresh = ground (arith, shape, sound);
      identified = ground (arith, shape);
      network = ground (arith, shape);
    }

-- Every call of `addNode` either fails and changes nothing in the network but, perhaps, the counter
-- of default names, or starts a node: it was not running before, its ID is that of its staking
-- files, and it is in the network under its name, with all other nodes as before. The latter holds
-- also where the call then fails because the beacons refuse the node.
pub add_node_cases :
    (H : Host) (c : NodeConfig) (s : State H)
    → let t = (add_node H c s).1 in
      ((e : Error) × ((add_node H c s).0 ≡ err e) × SameNetwork s.network t.network)
      ⊎ ((n : LocalNode H) × IsLaunched H s.network n
          × Added s.network n t.network
          × (((add_node H c s).0 ≡ ok n) ⊎ (is_ok (add_node H c s).0 ≡ false)))
add_node_cases H c s = elim (add_node_stages H c s) [
  | inl failed ↦ inl failed
  | inr (n, d) ↦ inr (n, Started-IsLaunched H c s n d, d.added, d.result)
]
