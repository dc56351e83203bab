-- ===== src/Local/Load.antt =====
-- local/network.go: a new network, and starting the nodes of a configuration (`newNetwork`,
-- `loadConfig`).
pub mod Outcome
pub mod Whole
use netrunner.Prelude.{
  ℕ, String, Bool, true, false, List, [], ◌∷◌, ◌++◌, Option, none, some, str_eq, if◌then◌else◌,
}
use netrunner.Prelude.Action.{Action, Result, ok, err, pure, lift, modify, adding_node, ◌>>=◌, ◌>>◌}
use netrunner.Host.{Host}
use netrunner.Config.{NodeConfig, NetworkConfig, or_empty}
use netrunner.Config.Network
use netrunner.Utils.{mkdir_with_timestamp}
use netrunner.Local.Types.{LocalNetwork, State}
use netrunner.Local.Add.{add_node}
use netrunner.Local.Ops.{stop}

-- the nodes that are beacons, or those that are not, in their order
unfoldable pub with_mark : Bool → List NodeConfig → List NodeConfig
with_mark mark [] = []
with_mark true (c ∷ cs) = let rest = with_mark true cs in if c.is_beacon then c ∷ rest else rest
with_mark false (c ∷ cs) = let rest = with_mark false cs in if c.is_beacon then rest else c ∷ rest

-- Sort node configs so beacons start first
unfoldable pub beacons_first : List NodeConfig → List NodeConfig
unfolding with_mark
beacons_first cs = with_mark true cs ++ with_mark false cs

module _ (H : Host) where
  open H use {World, mkdir_all, join, temp_dir, home_dir, no_beacons}

  -- if rootDir == "" { ... }
  unfoldable pub root_dir_of : String → Action World String
  root_dir_of given =
      if str_eq given ""
      then (do
        let parent = join temp_dir "network-runner-root-data"
        mkdir_all parent
        mkdir_with_timestamp H (join parent "network"))
      else pure given

  abbrev pub default_snapshots_dir : String
  default_snapshots_dir = join home_dir (join ".netrunner" "snapshots")

  abbrev empty_network : String → String → Bool → LocalNetwork H
  empty_network root snapshots reassign = record {
    network_id = 0;
    genesis = "";
    stopping = false;
    next_node_suffix = 1;
    nodes = [];
    bootstraps = no_beacons;
    root_dir = root;
    snapshots_dir = snapshots;
    flags = none;
    binary_path = "";
    chain_config_files = [];
    upgrade_config_files = [];
    subnet_config_files = [];
    reassign_ports_if_used = reassign;
    subnet_id_to_elastic_subnet_id = [];
  }

  unfoldable pub new_network : String → String → Bool → Action World (LocalNetwork H)
  unfolding root_dir_of
  new_network root_dir snapshots_dir reassign = do
    root ← root_dir_of root_dir
    let snapshots = if str_eq snapshots_dir "" then default_snapshots_dir else snapshots_dir
    mkdir_all snapshots
    pure (empty_network root snapshots reassign)

  abbrev set_genesis : String → State H → State H
  set_genesis genesis s = record s { network = record s.network { genesis = genesis } }

  -- save node defaults
  unfoldable pub set_defaults : NetworkConfig → State H → State H
  set_defaults c s = record s {
    network = record s.network {
      flags = c.flags;
      binary_path = c.binary_path;
      chain_config_files = or_empty c.chain_config_files;
      upgrade_config_files = or_empty c.upgrade_config_files;
      subnet_config_files = or_empty c.subnet_config_files;
    };
  }

  abbrev set_network_id : ℕ → State H → State H
  set_network_id id s = record s { network = record s.network { network_id = id } }

  -- The loop that starts the nodes. A failure stops the network, and an error of that is lost.
  unfoldable pub add_all : List NodeConfig → Action (State H) (Unit {0})
  add_all [] s = (ok tt, s)
  add_all (c ∷ cs) s =
      let added = add_node H c s in
      let rest = add_all cs added.1 in
      elim added.0 [ err e ↦ (err (adding_node c.name e), (stop H added.1).1) | ok n ↦ rest ]

  unfoldable pub load_config : NetworkConfig → Action (State H) (Unit {0})
  unfolding beacons_first set_defaults add_all
  load_config c s =
      (do
        lift (Network.validate H c)
        modify (set_genesis c.genesis)
        id ← lift (Network.network_id_from_genesis H c.genesis)
        modify (set_network_id id)
        modify (set_defaults c)
        add_all (beacons_first c.node_configs))
        s

  -- NewNetwork: the network is returned with the error of `loadConfig` too.
  unfoldable pub start_network :
      NetworkConfig
      → String
      → String
      → Bool
      → World
      → Result (Unit {0}) × Option (LocalNetwork H) × World
  unfolding new_network load_config
  start_network c root snapshots reassign w =
      let made = new_network root snapshots reassign w in
      elim made.0 [
        | err e ↦ (err e, none, made.1)
        | ok ln ↦
            let loaded = load_config c (record { network = ln; world = made.1 }) in
            (loaded.0, some loaded.1.network, loaded.1.world)
      ]
