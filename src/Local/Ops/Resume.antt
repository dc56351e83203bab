-- ===== src/Local/Ops/Resume.antt =====
-- A paused node that is resumed, or a node that is restarted, keeps its place: its identity, its
-- directories and its ports.
use netrunner.Prelude.{
  ℕ, ◌<◌, ◌%◌, String, true, false, ◌≡◌, ◌≢◌, ◌∙◌, refl, ap, inl, inr, [], ◌∷◌, Option, none, some,
  arith, eq_iff, eq_refl,
}
use netrunner.Prelude.Action.{ok, after}
use netrunner.Prelude.Dict.{Dict, lookup, distinct, lookup-insert, str_eq_sym}
use netrunner.Host.{Host, Value, Keys}
use netrunner.Config.{NodeConfig, or_empty}
use netrunner.Local.Types.{LocalNode, LocalNetwork, State}
use netrunner.Local.Entries.{get_config_entry, get_config_entry_lem}
use netrunner.Local.Ports.{get_port, given_port}
use netrunner.Local.Ports.Bounds.{get_port-given}
use netrunner.Local.Names.Unique.{set_node_name_sound}
use netrunner.Local.Add.{complete_config, on_world}
use netrunner.Local.Add.Completed.{complete_config-IsCompleted, IsMade, launch-IsMade}
use netrunner.Local.Add.Cases.{Started, add_node_stages, launch_sound}
use netrunner.Local.Ops.{keep_place, resumed_config, resume_node, share_maps}

-- the keys that a resumed node's flags set are different
abbrev pub PlaceKeysDistinct : Keys → Type 0
PlaceKeysDistinct k =
    distinct (k.data_dir ∷ k.db_path ∷ k.logs_dir ∷ k.http_port ∷ k.staking_port ∷ []) ≡ true

pub record KeepsPlace (H : Host) (n : LocalNode H) (flags : Dict Value) : Type 0 where
  pub data_dir : lookup H.keys.data_dir flags ≡ some (Value.text n.data_dir)
  pub db_dir : lookup H.keys.db_path flags ≡ some (Value.text n.db_dir)
  pub logs_dir : lookup H.keys.logs_dir flags ≡ some (Value.text n.logs_dir)
  pub api_port : lookup H.keys.http_port flags ≡ some (Value.int n.api_port)
  pub p2p_port : lookup H.keys.staking_port flags ≡ some (Value.int n.p2p_port)

pub keep_place-KeepsPlace :
    (H : Host) (n : LocalNode H) (flags : Dict Value)
    → PlaceKeysDistinct H.keys
    → KeepsPlace H n (keep_place H n flags)
unfolding keep_place
keep_place-KeepsPlace H n flags d = record {
  data_dir = simp lookup-insert (ground (arith, eq_refl data_dir));
  db_dir = simp lookup-insert (ground (arith, eq_refl db_path, str_eq_sym data_dir db_path));
  logs_dir =
      simp lookup-insert (
        ground
          (arith, eq_refl logs_dir, str_eq_sym data_dir logs_dir, str_eq_sym db_path logs_dir));
  api_port = simp lookup-insert (
      ground (
        arith,
        eq_refl http_port,
        str_eq_sym data_dir http_port,
        str_eq_sym db_path http_port,
        str_eq_sym logs_dir http_port,
      ));
  p2p_port = simp lookup-insert (
      ground (
        arith,
        eq_refl staking_port,
        str_eq_sym data_dir staking_port,
        str_eq_sym db_path staking_port,
        str_eq_sym logs_dir staking_port,
        str_eq_sym http_port staking_port,
      ));
}
  where
    open H.keys use {data_dir, db_path, logs_dir, http_port, staking_port}

-- The node `m` stands where `n` stood.
pub record SamePlace (H : Host) (n m : LocalNode H) : Type 0 where
  pub name : m.name ≡ n.name
  pub node_id : m.node_id ≡ n.node_id
  pub data_dir : m.data_dir ≡ n.data_dir
  pub db_dir : m.db_dir ≡ n.db_dir
  pub logs_dir : m.logs_dir ≡ n.logs_dir
  pub api_port : m.api_port ≡ n.api_port
  pub p2p_port : m.p2p_port ≡ n.p2p_port

-- What the node `n` must satisfy to be found again: what every node started by `addNode` satisfies.
pub record IsPlaced (H : Host) (n : LocalNode H) : Type 0 where
  pub named : n.config.name ≡ n.name
  pub nonempty : n.name ≢ ""
  pub keyed : n.config.staking_key ≢ ""
  pub certified : n.config.staking_cert ≢ ""
  pub identified : H.node_id_of n.config.staking_key n.config.staking_cert ≡ some n.node_id
  pub api_port : n.api_port < 65536
  pub p2p_port : n.p2p_port < 65536

entry_of_flag :
    (flags file : Dict Value) (key default s r : String)
    → lookup key flags ≡ some (Value.text s)
    → get_config_entry flags file key default ≡ ok r
    → r ≡ s
entry_of_flag flags file key default s r given found =
    ground (arith, get_config_entry_lem flags file key default)

port_of_flag :
    (H : Host) (flags file : Dict Value) (key : String) (w : H.World) (p r : ℕ)
    → p < 65536
    → lookup key flags ≡ some (Value.int p)
    → (get_port H flags file key false w).0 ≡ ok r
    → r ≡ p
unfolding given_port
port_of_flag H flags file key w p r small given found =
    ground (arith, get_port-given H flags file key w (Value.int p) (p % 65536))

-- A node that is started with the place of `n` in its flags gets that place.
launch-SamePlace :
    (H : Host) (ln : LocalNetwork H) (c : NodeConfig) (n m : LocalNode H)
    → ln.reassign_ports_if_used ≡ false
    → IsPlaced H n
    → KeepsPlace H n (or_empty c.flags)
    → IsMade H ln c m
    → (m.data_dir ≡ n.data_dir)
      × (m.db_dir ≡ n.db_dir)
      × (m.logs_dir ≡ n.logs_dir)
      × (m.api_port ≡ n.api_port)
      × (m.p2p_port ≡ n.p2p_port)
launch-SamePlace H ln c n m fixed placed keeps is_made =
    let flags = or_empty c.flags in
    let file = is_made.file in
    let made = is_made.made in
    let built = is_made.built in
    let shape = is_made.shape in
    (
      ground (
        arith,
        shape,
        entry_of_flag flags file H.keys.data_dir is_made.dir n.data_dir made.data_dir,
      ),
      ground (
        arith,
        shape,
        entry_of_flag flags file H.keys.db_path (H.join made.data_dir "db") n.db_dir made.db_dir,
      ),
      ground (
        arith,
        shape,
        entry_of_flag flags file H.keys.logs_dir (H.join made.data_dir "logs") n.logs_dir
            made.logs_dir,
      ),
      ground (
        arith,
        shape,
        port_of_flag H flags file H.keys.http_port built.api_port.0 n.api_port made.api_port,
      ),
      ground (
        arith,
        shape,
        port_of_flag H flags file H.keys.staking_port built.p2p_port.0 n.p2p_port made.p2p_port,
      ),
    )

KeepsPlace-of-lookup :
    (H : Host) (n : LocalNode H) (a b : Dict Value)
    → KeepsPlace H n a
    → ((k : String) → (v : Value) → lookup k a ≡ some v → lookup k b ≡ some v)
    → KeepsPlace H n b
KeepsPlace-of-lookup H n a b keeps same = record {
  data_dir = same _ _ keeps.data_dir;
  db_dir = same _ _ keeps.db_dir;
  logs_dir = same _ _ keeps.logs_dir;
  api_port = same _ _ keeps.api_port;
  p2p_port = same _ _ keeps.p2p_port;
}

-- Starting a node with a configuration that has the name, the staking files and the place of `n`
-- gives a node in the place of `n`.
pub Started-SamePlace :
    (H : Host) (c : NodeConfig) (s : State H) (n m : LocalNode H)
    → s.network.reassign_ports_if_used ≡ false
    → IsPlaced H n
    → (c.name ≡ n.name)
      × (c.staking_key ≡ n.config.staking_key)
      × (c.staking_cert ≡ n.config.staking_cert)
    → KeepsPlace H n (or_empty c.flags)
    → Started H c s m
    → SamePlace H n m × (m.paused ≡ false)
Started-SamePlace H c s n m fixed placed same keeps d =
    let s1 = after (on_world H (complete_config H s.network c)) s in
    let filled = complete_config-IsCompleted H s.network c d.completed s.world d.completes in
    let named = set_node_name_sound H d.completed d.named s1 d.names in
    let staked =
      filled.staking_files (λ e. placed.keyed (ground arith))
        (λ e. placed.certified (ground arith)) in
    let name_kept : d.named.name ≡ n.name =
      named.2 (λ e. placed.nonempty (ground (arith, filled.name))) ∙ filled.name ∙ same.0 in
    let is_made = launch-IsMade H s.network d.named d.launches.0 m d.launches.1 in
    let place =
      launch-SamePlace H s.network d.named n m fixed placed
        (KeepsPlace-of-lookup H n (or_empty c.flags) (or_empty d.named.flags) keeps
          λ k v e. ground (arith, named, filled.flags k))
        is_made in
    let shape = launch_sound H s.network d.named d.launches.0 m d.launches.1 in
    (
      record {
        name = ground (arith, shape, name_kept);
        node_id = ground (arith, shape, named, staked);
        data_dir = place.0;
        db_dir = place.1;
        logs_dir = place.2;
        api_port = place.3;
        p2p_port = place.4;
      },
      shape.0,
    )

-- A node without the maps of its configuration. A caller may give one map to several nodes, which
-- then see what is written for any of them.
abbrev pub without_maps : {H : Host} → Option (LocalNode H) → Option (LocalNode H)
without_maps none = none
without_maps (some n) = some (record n {
  config = record n.config {
    flags = none;
    chain_config_files = none;
    upgrade_config_files = none;
    subnet_config_files = none;
  };
})

-- With ports that are not reassigned, and different keys for the flags of directories and ports,
-- a node with staking files and ports that fit 16 bits that is resumed with success was paused,
-- and runs again in its place: same name, ID, directories and ports. Of every other node all is as
-- before but the maps of its configuration, which nodes may share.
pub resume_node-SamePlace :
    (H : Host) (s : State H) (n : LocalNode H)
    → PlaceKeysDistinct H.keys
    → s.network.reassign_ports_if_used ≡ false
    → lookup n.name s.network.nodes ≡ some n
    → IsPlaced H n
    → (resume_node H n.name s).0 ≡ ok tt
    → let t = (resume_node H n.name s).1 in
      (n.paused ≡ true)
      × ((m : LocalNode H) × (lookup n.name t.network.nodes ≡ some m)
          × SamePlace H n m
          × (m.paused ≡ false))
      × ((k : String)
          → k ≢ n.name
          → without_maps (lookup k t.network.nodes) ≡ without_maps (lookup k s.network.nodes))
unfolding resume_node
resume_node-SamePlace H s n keys fixed there placed h =
    let c = resumed_config H n in
    let s1 = share_maps H n.name n c s in
    elim (add_node_stages H c s1) [
      | inl (e, failed, same) ↦ absurd (ground arith)
      | inr (m, d) ↦
          let (place, live) =
            Started-SamePlace H c s1 n m fixed placed (placed.named, refl, refl)
              (keep_place-KeepsPlace H n (or_empty n.config.flags) keys) d in
          (
            ground arith,
            (
              m,
              ground (
                arith,
                d.added,
                place.name,
                lookup-insert m.name n.name m s1.network.nodes,
                eq_refl n.name,
              ),
              place,
              live,
            ),
            λ k other. ap without_maps (
                ground (
                  arith,
                  d.added,
                  place.name,
                  lookup-insert m.name k m s1.network.nodes,
                  lookup-insert n.name k
                      (record n { config = record c { binary_path = n.config.binary_path } })
                      s.network.nodes,
                  eq_iff n.name k,
                )),
          )
    ]
