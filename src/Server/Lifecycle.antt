-- ===== src/Server/Lifecycle.antt =====
-- server/server.go: the handlers that start and stop the network.
use netrunner.Prelude.{
  ℕ, ◌%◌, String, Bool, true, false, List, [], ◌∷◌, Option, none, some, ltb, is_some, get_or,
  length,
}
use netrunner.Prelude.Action.{
  Action, Error, pure, gets, modify, refuse_if, already_bootstrapped, not_enough_nodes, ◌>>=◌, ◌>>◌,
}
use netrunner.Prelude.Dict.{Dict}
use netrunner.Host.{Host}
use netrunner.Utils.{check_exec_path, mkdir_with_timestamp, default_root_dir}
use netrunner.Server.Types.{ClusterInfo, BlockchainRequest, BlockchainSpec, Options}
use netrunner.Server.Specs.{get_network_blockchain_spec, make_each}
use netrunner.Server.Runner.{Runner}
use netrunner.Server.State.{
  Server, on_network, on_world, copy_cluster, update_cluster_info, stop_and_remove_network, or_stop,
}

pub record StartRequest : Type 0 where
  pub exec_path : String
  pub num_nodes : Option ℕ
  pub whitelisted_subnets : String
  pub root_data_dir : String
  pub global_node_config : String
  pub custom_node_configs : Dict String
  pub plugin_dir : String
  pub blockchain_specs : List BlockchainRequest
  pub chain_configs : Dict String
  pub upgrade_configs : Dict String
  pub subnet_configs : Dict String
  pub reassign_ports_if_used : Bool
  pub dynamic_ports : Bool

pub record LoadSnapshotRequest : Type 0 where
  pub snapshot_name : String
  pub exec_path : String
  pub plugin_dir : String
  pub root_data_dir : String
  pub chain_configs : Dict String
  pub upgrade_configs : Dict String
  pub subnet_configs : Dict String
  pub global_node_config : String
  pub reassign_ports_if_used : Bool

abbrev pub default_nodes : ℕ
default_nodes = 5

abbrev pub min_nodes : ℕ
min_nodes = 1

-- Custom node configurations decide the number of nodes: uint32(len(customNodeConfigs)).
unfoldable pub number_of_nodes : StartRequest → ℕ
number_of_nodes req = elim req.custom_node_configs [
  | [] ↦ get_or req.num_nodes default_nodes
  | c ∷ cs ↦ length (c ∷ cs) % 4294967296
]

unfoldable pub start_options : Bool → String → String → StartRequest → Options
unfolding number_of_nodes
start_options redirect snapshots_dir root req = record {
  exec_path = req.exec_path;
  root_data_dir = root;
  num_nodes = number_of_nodes req;
  track_subnets = req.whitelisted_subnets;
  redirect_nodes_output = redirect;
  global_node_config = req.global_node_config;
  plugin_dir = req.plugin_dir;
  custom_node_configs = req.custom_node_configs;
  chain_configs = req.chain_configs;
  upgrade_configs = req.upgrade_configs;
  subnet_configs = req.subnet_configs;
  snapshots_dir = snapshots_dir;
  reassign_ports_if_used = req.reassign_ports_if_used;
  dynamic_ports = req.dynamic_ports;
}

-- The options that a snapshot's request does not set keep Go's zero values.
unfoldable pub load_options : String → String → LoadSnapshotRequest → Options
load_options snapshots_dir root req = record {
  exec_path = req.exec_path;
  root_data_dir = root;
  num_nodes = 0;
  track_subnets = "";
  redirect_nodes_output = false;
  global_node_config = req.global_node_config;
  plugin_dir = req.plugin_dir;
  custom_node_configs = [];
  chain_configs = req.chain_configs;
  upgrade_configs = req.upgrade_configs;
  subnet_configs = req.subnet_configs;
  snapshots_dir = snapshots_dir;
  reassign_ports_if_used = req.reassign_ports_if_used;
  dynamic_ports = false;
}

abbrev pub fresh_cluster : ℕ → String → ClusterInfo
fresh_cluster pid root = record {
  node_names = [];
  node_infos = [];
  pid = pid;
  root_data_dir = root;
  healthy = false;
  attached_peer_infos = none;
  custom_chains_healthy = false;
  custom_chains = [];
  subnets = [];
}

module _ (H : Host) (R : Runner H) where
  unfoldable pub network_root_dir : String → Action H.World String
  network_root_dir given = do
    root ← default_root_dir H given
    mkdir_with_timestamp H (H.join root "network")

  abbrev set_cluster : ClusterInfo → Action (Server H R) (Unit {0})
  set_cluster i = modify (λ s. record s { cluster_info = some i })

  -- s.network, err = newLocalNetwork(options)
  abbrev make_network : Options → Action (Server H R) (Unit {0})
  make_network options = do
    n ← on_world H R (R.new_local_network options)
    modify (λ s. record s { network = some n })

  -- the error goes into the channel, or not
  abbrev dropped : Error → Option Error
  dropped e = none

  -- the checks and the directory that a new network needs
  unfoldable pub prepare : StartRequest → Action H.World (List BlockchainSpec × String)
  prepare req = do
    check_exec_path H req.exec_path
    specs ← make_each H (get_network_blockchain_spec H true req.plugin_dir) req.blockchain_specs
    root ← network_root_dir req.root_data_dir
    pure (specs, root)

  -- from a new network to one that runs the requested chains
  unfoldable pub bring_up : List BlockchainSpec → Action (Server H R) (ClusterInfo × List String)
  bring_up specs = do
    or_stop H R dropped (on_network H R R.start)
    chain_ids ← or_stop H R some (on_network H R (R.create_chains specs))
    update_cluster_info H R
    copied ← copy_cluster H R
    pure (copied, chain_ids)

  unfoldable pub start : StartRequest → Action (Server H R) (ClusterInfo × List String)
  start req s =
      (do
        refuse_if (is_some s.network) already_bootstrapped
        refuse_if (ltb (get_or req.num_nodes default_nodes) min_nodes) not_enough_nodes
        (specs, root) ← on_world H R (prepare req)
        set_cluster (fresh_cluster H.pid root)
        make_network (start_options s.redirect_nodes_output s.snapshots_dir root req)
        bring_up specs)
        s

  unfoldable pub load_snapshot : LoadSnapshotRequest → Action (Server H R) ClusterInfo
  load_snapshot req s =
      (do
        refuse_if (is_some s.network) already_bootstrapped
        root ← on_world H R (network_root_dir req.root_data_dir)
        make_network (load_options s.snapshots_dir root req)
        set_cluster (fresh_cluster H.pid root)
        or_stop H R dropped (on_network H R (R.load_snapshot req.snapshot_name))
        or_stop H R some (on_network H R R.await_healthy)
        update_cluster_info H R
        copy_cluster H R)
        s

  unfoldable pub save_snapshot : String → Action (Server H R) String
  save_snapshot name = do
    path ← on_network H R (R.save_snapshot name)
    modify (stop_and_remove_network H R none)
    pure path

  unfoldable pub stop : Action (Server H R) (Option ClusterInfo)
  stop = do modify (stop_and_remove_network H R none); gets (λ s. s.cluster_info)
