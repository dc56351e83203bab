-- ===== src/Examples/Snapshots.antt =====
-- The properties of snapshots: a network is saved on a host with a disk, and loaded again.
use mathlib.Core.Path.{subst}
use netrunner.Prelude.{
  String, true, false, ◌≡◌, ◌≢◌, refl, List, [], ◌∷◌, none, some, arith, eq_iff, length,
}
use netrunner.Prelude.Action.{ok, collect, for_each}
use netrunner.Prelude.Dict.{lookup, insert, remove, keys, lookup-insert, lookup-insert_self}
use netrunner.Host.{Value}
use netrunner.Config.{NodeConfig}
use netrunner.Local.Types.{LocalNode, LocalNetwork, State}
use netrunner.Local.Ops.Resume.{IsPlaced}
use netrunner.Local.Ops.Invariant.{HostLaws, IsValid}
use netrunner.Local.Snapshots.{Codec, network_file, state_file}
use netrunner.Local.Snapshots.Save.{
  saved_configs, saved_network, save_snapshot, values, ported, with_ports, movable, without_dirs,
  write_snapshot, db_dirs, save_db,
}
use netrunner.Utils.{set_json_key}
use netrunner.Local.Ops.{stop, stop_all, remove_node, stop_node_process}
use netrunner.Local.Snapshots.Load.{Overrides, load_snapshot}
use netrunner.Local.Snapshots.Stored.{FileLaws}
use netrunner.Local.Snapshots.Recovered.{json_config, Decodes, Recovered, KeysApart, map_values}
use netrunner.Local.Snapshots.Roundtrip.{snapshot-roundtrip}
use netrunner.Config.Network
use netrunner.Config.Node
use netrunner.Prelude.Action.{for_all}
use netrunner.Prelude.Dict.{put_all, add_missing}
use netrunner.Utils.{stat_result}
use netrunner.Local.Snapshots.Flags.{
  fix_map, fix_node, fix_deprecated_luxd_flags, fix_subnets, fix_build_dir,
}
use netrunner.Local.Snapshots.Load.{
  restored_config, restored_nodes, flagged, write_flags, load_db, overridden, load_state,
}
use netrunner.Local.Load.{load_config, beacons_first, with_mark, set_defaults, add_all}
use netrunner.Local.Ports.{get_port, configured_port, given_port, reassign, last_check}
use netrunner.Local.Entries.{get_config_entry, add_network_flags}
use netrunner.Local.Files.{make_node_dir, write_files}
use netrunner.Local.Args.{build_args}
use netrunner.Local.Names.{set_node_name, assigned, is_paused_node}
use netrunner.Local.Add.{
  add_node, complete_config, with_defaults, with_staking_files, with_signing_key, get_node_sem_ver,
  read_config_file, launch, join_beacons,
}
use netrunner.Examples.Demo.{ne_nil, staked_config}
use netrunner.Examples.Disk.{disk}

disk-HostLaws : HostLaws disk
unfolding disk
disk-HostLaws = record {
  ports = record { intn_lt = λ n w h. h; u16_lt = λ b. ground arith };
  staking = λ w made h. ground (arith, ne_nil "cert" refl, ne_nil "key" refl);
}

disk-FileLaws : FileLaws disk
unfolding disk
disk-FileLaws = record {
  contents = λ path files. lookup path files;
  written = λ path text w h. lookup-insert_self path text w;
  others =
      λ path other text w apart. ground (arith, lookup-insert other path text w, eq_iff other path);
  stat = λ path other w. refl;
  read = λ path text found w there h. ground arith;
}

unfoldable kept_node : LocalNode disk
unfolding disk
kept_node = record {
  name = "node1";
  node_id = "NodeID-1";
  network_id = 1337;
  process = 0;
  api_port = 9630;
  p2p_port = 9631;
  data_dir = "data";
  db_dir = "db";
  logs_dir = "logs";
  plugin_dir = "";
  config = record (staked_config "node1") { flags = some [] };
  http_host = "";
  attached_peers = [];
  paused = true;
}

kept_node-IsPlaced : IsPlaced disk kept_node
unfolding disk kept_node
kept_node-IsPlaced = record {
  named = refl;
  nonempty = ne_nil "node1" refl;
  keyed = ne_nil "key" refl;
  certified = ne_nil "cert" refl;
  identified = refl;
  api_port = ground arith;
  p2p_port = ground arith;
}

unfoldable kept_network : LocalNetwork disk
unfolding disk kept_node
kept_network = record {
  network_id = 1337;
  genesis = "genesis";
  stopping = false;
  next_node_suffix = 1;
  nodes = ("node1", kept_node) ∷ [];
  bootstraps = [];
  root_dir = "root";
  snapshots_dir = "snapshots";
  flags = none;
  binary_path = "luxd";
  chain_config_files = [];
  upgrade_config_files = [];
  subnet_config_files = [];
  reassign_ports_if_used = false;
  subnet_id_to_elastic_subnet_id = [];
}

unfoldable kept_state : State disk
unfolding disk kept_network
kept_state = record { network = kept_network; world = [] }

abbrev saved_node : NodeConfig
saved_node = record (staked_config "node1") {
  config_file = "config";
  flags = some (("http-port", Value.uint16 9630) ∷ ("staking-port", Value.uint16 9631) ∷ []);
}

abbrev as_number : Value → Value
as_number (Value.uint16 p) = Value.float p
as_number v = v

-- JSON for the one configuration that is saved here
unfoldable one_codec : Codec
unfolding saved_network
one_codec = record {
  marshal_config = λ c. "saved";
  unmarshal_config =
      λ text. some (json_config as_number (saved_network disk kept_network (saved_node ∷ [])));
  marshal_texts = λ m. "{}";
  unmarshal_texts = λ text. some [];
  id_from_string = λ text. some text;
}

abbrev pub no_overrides : Overrides
no_overrides = record {
  binary_path = "";
  plugin_dir = "";
  chain_configs = [];
  upgrade_configs = [];
  subnet_configs = [];
  flags = [];
}

unfoldable fresh_state : State disk
unfolding save_snapshot kept_state kept_network kept_node one_codec
fresh_state = record {
  network = record kept_network { nodes = []; root_dir = "root2" };
  world = (save_snapshot disk one_codec "s" kept_state).1.world;
}

kept-IsValid : IsValid disk kept_state.network.nodes
unfolding lookup disk kept_state kept_network kept_node one_codec
kept-IsValid k n h = ground (arith, eq_iff "node1" k, kept_node-IsPlaced)

saved_ran : (save_snapshot disk one_codec "s" kept_state).0 ≡ ok "snapshots/anr-snapshot-s"
unfolding save_snapshot saved_configs values collect ported with_ports movable without_dirs
    set_json_key stop stop_all remove_node stop_node_process write_snapshot db_dirs save_db
    saved_network for_each lookup insert remove keys disk kept_state kept_network kept_node
    one_codec
saved_ran = refl

loaded_ran : (load_snapshot disk one_codec "s" no_overrides fresh_state).0 ≡ ok tt
unfolding load_snapshot fresh_state stat_result restored_config restored_nodes for_all fix_map
    fix_node fix_deprecated_luxd_flags fix_subnets fix_build_dir flagged write_flags load_db
    overridden map_values put_all load_state load_config beacons_first with_mark set_defaults
    add_all Network.validate Network.validate_with Network.validate_nodes Network.beacons_given
    Network.network_id_from_genesis Network.network_id_in Network.network_id_entry Network.number_of
    Node.validate Node.validate_config_file Node.check_config_map Node.check_network_id
    Node.same_network Node.check_text Node.check_float add_node complete_config with_defaults
    with_staking_files with_signing_key add_network_flags add_missing set_node_name assigned launch
    make_node_dir read_config_file get_node_sem_ver build_args get_config_entry get_port
    configured_port given_port reassign last_check write_files join_beacons is_paused_node
    save_snapshot saved_configs values collect ported with_ports movable without_dirs set_json_key
    stop stop_all remove_node stop_node_process write_snapshot db_dirs save_db saved_network
    for_each lookup insert remove keys disk kept_state kept_network kept_node one_codec
loaded_ran = refl

decodes :
    (cs : List NodeConfig)
    → saved_configs disk kept_network.nodes ≡ ok cs
    → Decodes disk one_codec (saved_network disk kept_network cs)
unfolding save_snapshot saved_configs values collect ported with_ports movable without_dirs
    set_json_key stop stop_all remove_node stop_node_process write_snapshot db_dirs save_db
    saved_network for_each lookup insert remove keys disk kept_state kept_network kept_node
    one_codec given_port
decodes cs h =
    subst (λ xs. Decodes disk one_codec (saved_network disk kept_network xs)) only
      (record { json = as_number; decoded = refl; ports = λ p lt. ground arith })
  where
    only : saved_node ∷ [] ≡ cs
    only = ground arith

kept-KeysApart : KeysApart disk no_overrides
unfolding disk lookup
kept-KeysApart = record {
  saved = record {
    http_data = refl;
    http_logs = refl;
    p2p_data = refl;
    p2p_logs = refl;
    ports = refl;
  };
  renamed = refl;
  api_port = record {
    build = refl;
    subnets = refl;
    track = refl;
    plugin = refl;
    db = refl;
    given = refl;
  };
  p2p_port = record {
    build = refl;
    subnets = refl;
    track = refl;
    plugin = refl;
    db = refl;
    given = refl;
  };
  db = refl;
}

ne_files : network_file disk kept_state.network "s" ≢ state_file disk kept_state.network "s"
unfolding disk kept_state kept_network kept_node one_codec
ne_files e =
    ground
      (arith, eq_iff "snapshots/anr-snapshot-s/network.json" "snapshots/anr-snapshot-s/state.json")

snapshot-roundtrip_example :
    let u = (load_snapshot disk one_codec "s" no_overrides fresh_state).1.network in
    (length u.nodes ≡ 1)
    × ((k : String) (n : LocalNode disk)
        → lookup k kept_state.network.nodes ≡ some n
        → (m : LocalNode disk) × (lookup k u.nodes ≡ some m) × Recovered disk "root2" n m)
unfolding fresh_state kept_state kept_network kept_node one_codec lookup disk
snapshot-roundtrip_example =
    snapshot-roundtrip disk disk-HostLaws disk-FileLaws one_codec "s" "snapshots/anr-snapshot-s"
      no_overrides kept_state fresh_state kept-KeysApart (ne_files) kept-IsValid decodes saved_ran
      (record { empty = refl; place = refl; fixed = refl; kept = refl }) loaded_ran
