-- ===== src/Local/Add.antt =====
-- local/network.go: starting a node (`addNode`).
pub mod Cases
pub mod Completed
pub mod Realised
use netrunner.Prelude.{
  ℕ, String, Bool, true, false, ◌&&◌, ◌||◌, not, ◌<>◌, List, [], Option, none, some, str_eq,
  if◌then◌else◌,
}
use netrunner.Prelude.Action.{
  Action, Result, ok, err, pure, raise, or_raise, modify, external, config_file_unreadable,
  invalid_version_output, ◌>>=◌, ◌>>◌,
}
use netrunner.Prelude.Dict.{Dict, lookup, insert, add_missing}
use netrunner.Host.{Host, Value}
use netrunner.Config.{NodeConfig, or_empty}
use netrunner.Local.Types.{LocalNode, LocalNetwork, State}
use netrunner.Local.Entries.{add_network_flags}
use netrunner.Local.Files.{make_node_dir}
use netrunner.Local.Args.{NodeData, build_args}
use netrunner.Local.Names.{set_node_name, is_paused_node}

module _ (H : Host) where
  open H use {World, new_cert_and_key, new_signing_key, node_version_output, version_match}
  open H use {unmarshal, node_id_of, new_process, add_beacon}

  -- An action on the world outside leaves the network alone.
  abbrev pub on_world : {A : Type 0} → Action World A → Action (State H) A
  on_world m s = ((m s.world).0, record s { world = (m s.world).1 })

  -- the node defaults of the network
  unfoldable pub with_defaults : LocalNetwork H → NodeConfig → NodeConfig
  unfolding add_network_flags
  with_defaults ln c = record c {
    binary_path = if str_eq c.binary_path "" then ln.binary_path else c.binary_path;
    chain_config_files = some (add_missing ln.chain_config_files (or_empty c.chain_config_files));
    upgrade_config_files =
        some (add_missing ln.upgrade_config_files (or_empty c.upgrade_config_files));
    subnet_config_files =
        some (add_missing ln.subnet_config_files (or_empty c.subnet_config_files));
    flags = some (add_network_flags (or_empty ln.flags) (or_empty c.flags));
  }

  -- One of certificate and key alone is of no use: both are new then.
  unfoldable pub with_staking_files : NodeConfig → Action World NodeConfig
  with_staking_files c =
      if str_eq c.staking_cert "" || str_eq c.staking_key ""
      then (new_cert_and_key >>= λ made.
          pure (record c { staking_cert = made.0; staking_key = made.1 }))
      else pure c

  unfoldable pub with_signing_key : NodeConfig → Action World NodeConfig
  with_signing_key c =
      if str_eq c.staking_signing_key ""
      then (new_signing_key >>= λ key. pure (record c { staking_signing_key = key }))
      else pure c

  unfoldable pub complete_config : LocalNetwork H → NodeConfig → Action World NodeConfig
  complete_config ln c = do c1 ← with_staking_files (with_defaults ln c); with_signing_key c1

  unfoldable pub get_node_sem_ver : NodeConfig → Action World String
  get_node_sem_ver c = do
    output ← node_version_output c.binary_path
    version ← or_raise (version_match output) invalid_version_output
    pure ("v" <> version)

  unfoldable pub read_config_file : String → Action World (Dict Value)
  read_config_file file =
      if str_eq file "" then pure [] else or_raise (unmarshal file) config_file_unreadable

  -- the wrapper of a node whose process is running
  abbrev pub node_of : LocalNetwork H → NodeConfig → NodeData → String → H.Process → LocalNode H
  node_of ln c made node_id process = record {
    name = c.name;
    node_id = node_id;
    network_id = ln.network_id;
    process = process;
    api_port = made.api_port;
    p2p_port = made.p2p_port;
    data_dir = made.data_dir;
    db_dir = made.db_dir;
    logs_dir = made.logs_dir;
    plugin_dir = made.plugin_dir;
    config = c;
    http_host = made.http_host;
    attached_peers = [];
    paused = false;
  }

  -- from the node's directory to its process
  unfoldable pub launch : LocalNetwork H → NodeConfig → Action World (LocalNode H)
  launch ln c = do
    node_dir ← make_node_dir H ln.root_dir c.name
    config_file ← read_config_file c.config_file
    version ← get_node_sem_ver c
    made ← build_args H ln version config_file node_dir c
    node_id ← or_raise (node_id_of c.staking_key c.staking_cert) (external "staking certificate")
    process ← new_process c.binary_path made.args
    pure (node_of ln c made node_id process)

  abbrev pub put_node : LocalNode H → State H → State H
  put_node n s = record s { network = record s.network { nodes = insert n.name n s.network.nodes } }

  -- The node stays in the network also if the beacons refuse it.
  unfoldable pub join_beacons : Bool → LocalNode H → Action (State H) (LocalNode H)
  join_beacons is_paused n s =
      if not is_paused && n.config.is_beacon
      then elim (add_beacon n.node_id n.p2p_port s.network.bootstraps) [
        | none ↦ (err (external "beacon"), s)
        | some b ↦ (ok n, record s { network = record s.network { bootstraps = b } })
      ]
      else (ok n, s)

  unfoldable pub add_node : NodeConfig → Action (State H) (LocalNode H)
  add_node c s =
      (do
        c1 ← on_world (complete_config s.network c)
        c2 ← set_node_name H c1
        n ← on_world (launch s.network c2)
        modify (put_node n)
        join_beacons (is_paused_node H s.network c2.name) n)
        s
