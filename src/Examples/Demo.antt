-- ===== src/Examples/Demo.antt =====
-- A host whose world is a counter of what was made, and a network with one running node and one
-- paused.
use netrunner.Prelude.{
  ℕ, ◌+◌, String, Bool, true, false, List, [], ◌∷◌, Option, none, some, str_eq, if◌then◌else◌, ◌≡◌,
  ◌≢◌, refl, eq_iff, arith,
}
use netrunner.Prelude.Action.{ok}
use netrunner.Prelude.Dict.{Dict}
use netrunner.Host.{Host, Value, Keys, Stat}
use netrunner.Config.{NodeConfig, NetworkConfig}
use netrunner.Local.Ops.Resume.{IsPlaced}
use netrunner.Local.Types.{LocalNode, LocalNetwork, State}

abbrev pub demo_keys : Keys
demo_keys = record {
  network_name = "network-id";
  data_dir = "data-dir";
  db_path = "db-dir";
  logs_dir = "log-dir";
  http_host = "http-host";
  http_port = "http-port";
  staking_port = "staking-port";
  plugin_dir = "plugin-dir";
  track_subnets = "track-subnets";
  bootstrap_ips = "bootstrap-ips";
  bootstrap_ids = "bootstrap-ids";
  staking_tls_key_path = "staking-tls-key-file";
  staking_cert_path = "staking-tls-cert-file";
  staking_signer_key_path = "staking-signer-key-file";
  genesis_config_file = "genesis";
  config_file = "config-file";
  chain_config_dir = "chain-config-dir";
  subnet_config_dir = "subnet-config-dir";
}

-- Two files that parse: a genesis and a node's config file.
abbrev pub unmarshal_demo : String → Option (Dict Value)
unmarshal_demo file =
    if str_eq file "genesis"
    then some (("networkID", Value.float 1337) ∷ [])
    else if str_eq file "config"
    then some (("network-id", Value.float 1337) ∷ [])
    else none

abbrev pub demo : Host
demo = record {
  World = ℕ;
  keys = demo_keys;
  Process = ℕ;
  new_process = λ binary args w. (ok 0, w + 1);
  stop_process = λ p w. (p, w);
  node_version_output = λ binary w. (ok "lux/1.10.0", w);
  version_match = λ output. some "1.10.0";
  older = λ a b. false;
  new_cert_and_key = λ w. (ok ("cert", "key"), w + 1);
  new_signing_key = λ w. (ok "signer", w + 1);
  base64_decode = λ text. some text;
  node_id_of = λ key cert. some "NodeID-1";
  Beacons = List String;
  no_beacons = [];
  add_beacon = λ id port beacons. some (id ∷ beacons);
  remove_beacon = λ id beacons. [];
  ips_arg = λ beacons. "";
  ids_arg = λ beacons. "";
  padded_id = λ text. text;
  local_id = 1337;
  network_name = λ id. "local";
  unmarshal = unmarshal_demo;
  marshal = λ m. "{}";
  marshal_value = λ v. "";
  float_to_u16 = λ bits. 9650;
  float_to_u32 = λ bits. bits;
  float_to_int = λ bits. bits;
  show_value = λ v. "value";
  Peer = String;
  attach_peer = λ ip port id w. (ok "peer", w);
  peer_id = λ p. p;
  send = λ p bytes op w. (true, w);
  stat = λ path w. (Stat.present, w);
  mkdir_all = λ path w. (ok tt, w);
  timestamp = λ w. ("now", w);
  mkdir = λ path w. (ok true, w);
  create_and_write = λ path contents w. (ok tt, w);
  read_file = λ path w. (ok "", w);
  read_optional = λ path w. (ok none, w);
  remove_all = λ path w. (ok tt, w);
  copy_dir = λ source target w. (ok tt, w);
  glob = λ pattern w. (ok ("anr-snapshot-a" ∷ []), w);
  join = λ dir file. file;
  dir = λ path. "plugins";
  base = λ path. path;
  temp_dir = "tmp";
  home_dir = "home";
  parse_time = λ text. none;
  now = λ w. (0, w);
  pid = 1;
  is_free_port = λ port w. (true, w);
  port_tries = 3;
  rand_intn = λ n w. (0, w);
}

-- A configuration with nothing but a name.
abbrev pub config_named : String → NodeConfig
config_named name = record {
  name = name;
  is_beacon = false;
  staking_key = "";
  staking_cert = "";
  staking_signing_key = "";
  config_file = "";
  chain_config_files = none;
  upgrade_config_files = none;
  subnet_config_files = none;
  flags = none;
  binary_path = "";
  redirect_stdout = false;
  redirect_stderr = false;
}

abbrev pub staked_config : String → NodeConfig
staked_config name = record (config_named name) {
  is_beacon = true;
  staking_key = "key";
  staking_cert = "cert";
  config_file = "config";
}

abbrev pub network_config : NetworkConfig
network_config = record {
  genesis = "genesis";
  node_configs = staked_config "node1" ∷ [];
  flags = none;
  binary_path = "luxd";
  chain_config_files = none;
  upgrade_config_files = none;
  subnet_config_files = none;
}

abbrev pub node_at : String → Bool → LocalNode demo
node_at name paused = record {
  name = name;
  node_id = "NodeID-1";
  network_id = 1337;
  process = 0;
  api_port = 9630;
  p2p_port = 9631;
  data_dir = "data";
  db_dir = "db";
  logs_dir = "logs";
  plugin_dir = "";
  config = staked_config name;
  http_host = "";
  attached_peers = [];
  paused = paused;
}

abbrev pub running_node : LocalNode demo
running_node = node_at "node1" false

abbrev pub paused_node : LocalNode demo
paused_node = node_at "node2" true

abbrev pub demo_network : LocalNetwork demo
demo_network = record {
  network_id = 1337;
  genesis = "genesis";
  stopping = false;
  next_node_suffix = 1;
  nodes = ("node1", running_node) ∷ ("node2", paused_node) ∷ [];
  bootstraps = "NodeID-1" ∷ [];
  root_dir = "root";
  snapshots_dir = "snapshots";
  flags = none;
  binary_path = "luxd";
  chain_config_files = [];
  upgrade_config_files = [];
  subnet_config_files = [];
  reassign_ports_if_used = false;
  subnet_id_to_elastic_subnet_id = [];
}

abbrev pub demo_state : State demo
demo_state = record { network = demo_network; world = 0 }

-- A text with a first character is not empty.
pub ne_nil : (s : String) → str_eq s "" ≡ false → s ≢ ""
ne_nil s h e = ground (arith, eq_iff s "")

pub paused_node-IsPlaced : IsPlaced demo paused_node
paused_node-IsPlaced = record {
  named = refl;
  nonempty = ne_nil "node2" refl;
  keyed = ne_nil "key" refl;
  certified = ne_nil "cert" refl;
  identified = refl;
  api_port = ground arith;
  p2p_port = ground arith;
}

pub running_node-IsPlaced : IsPlaced demo running_node
running_node-IsPlaced = record {
  named = refl;
  nonempty = ne_nil "node1" refl;
  keyed = ne_nil "key" refl;
  certified = ne_nil "cert" refl;
  identified = refl;
  api_port = ground arith;
  p2p_port = ground arith;
}
