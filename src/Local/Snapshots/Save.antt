-- ===== src/Local/Snapshots/Save.antt =====
-- local/snapshot.go: `SaveSnapshot`.
use mathlib.Core.Option
use netrunner.Prelude.{
  String, Bool, true, false, List, [], ◌∷◌, Option, none, some, str_eq, if◌then◌else◌,
}
use netrunner.Prelude.Action.{
  Action, Result, ok, err, pure, lift, or_raise, refuse_if, for_each, collect, panic,
  network_stopped, invalid_snapshot_name, snapshot_exists, db_path_missing, ◌>>=◌, ◌>>◌,
}
use netrunner.Prelude.Dict.{Dict, lookup, insert, remove}
use netrunner.Host.{Host, Value, Stat, present, absent, unreadable}
use netrunner.Config.{NodeConfig, NetworkConfig}
use netrunner.Utils.{set_json_key}
use netrunner.Local.Types.{LocalNode, LocalNetwork, State}
use netrunner.Local.Add.{on_world}
use netrunner.Local.Ops.{stop}
use netrunner.Local.Snapshots.{Codec, snapshot_dir, network_file, state_file, db_dir}
use netrunner.Local.Snapshots.Names.{stat_of}

abbrev pub is_present : Stat → Bool
is_present present = true
is_present absent = false
is_present unreadable = false

-- the second component of each entry, in order
unfoldable pub values : {V : Type 0} → Dict V → List V
values [] = []
values ((k, v) ∷ m) = v ∷ values m

module _ (H : Host) where
  open H use {World, keys, join, network_name, copy_dir, mkdir_all, create_and_write}

  -- The node's ports as flags, in a clone of its flags; a clone of a nil map is nil.
  unfoldable pub with_ports : LocalNode H → Option (Dict Value) → Result (Dict Value)
  with_ports n none = err panic
  with_ports n (some flags) = ok (
      insert keys.staking_port (Value.uint16 n.p2p_port)
        (insert keys.http_port (Value.uint16 n.api_port) flags))

  abbrev with_flags : NodeConfig → Result (Dict Value) → Result NodeConfig
  with_flags c (err e) = err e
  with_flags c (ok flags) = ok (record c { flags = some flags })

  unfoldable pub ported : LocalNode H → Result NodeConfig
  unfolding with_ports
  ported n = with_flags n.config (with_ports n n.config.flags)

  -- the flags without the directories of data and logs
  unfoldable pub without_dirs : Dict Value → Dict Value
  without_dirs flags = remove keys.logs_dir (remove keys.data_dir flags)

  abbrev cleared_file : String → Result String
  cleared_file file = if str_eq file "" then ok "" else set_json_key H file keys.logs_dir ""

  -- the same of a node's config file and flags
  unfoldable pub movable : NodeConfig → Result NodeConfig
  unfolding set_json_key without_dirs
  movable c = elim (cleared_file c.config_file) [
    | err e ↦ err e
    | ok file ↦ ok (record c { config_file = file; flags = Option.map without_dirs c.flags })
  ]

  abbrev all_movable : Result (List NodeConfig) → Result (List NodeConfig)
  all_movable (err e) = err e
  all_movable (ok cs) = collect movable cs

  -- `nodesConfig` when the network is about to be stopped
  unfoldable pub saved_configs : Dict (LocalNode H) → Result (List NodeConfig)
  unfolding values collect ported movable
  saved_configs nodes = all_movable (collect ported (values nodes))

  -- `nodesDBDir`
  unfoldable pub db_dirs : Dict (LocalNode H) → Dict String
  db_dirs [] = []
  db_dirs ((name, n) ∷ nodes) = (name, n.db_dir) ∷ db_dirs nodes

  unfoldable pub save_db :
      LocalNetwork H → String → Dict String → NodeConfig → Action World (Unit {0})
  save_db ln name dirs c = do
    source ← or_raise (lookup c.name dirs) (db_path_missing c.name)
    copy_dir (join source (network_name ln.network_id))
        (join (join (db_dir H ln name) c.name) (network_name ln.network_id))

  unfoldable pub saved_network : LocalNetwork H → List NodeConfig → NetworkConfig
  unfolding without_dirs
  saved_network ln configs = record {
    genesis = ln.genesis;
    node_configs = configs;
    flags = Option.map without_dirs ln.flags;
    binary_path = ln.binary_path;
    chain_config_files = some ln.chain_config_files;
    upgrade_config_files = some ln.upgrade_config_files;
    subnet_config_files = some ln.subnet_config_files;
  }

  -- what is written once the network is stopped
  unfoldable pub write_snapshot :
      Codec → LocalNetwork H → String → List NodeConfig → Action World String
  unfolding db_dirs save_db saved_network for_each
  write_snapshot J ln name configs = do
    mkdir_all (db_dir H ln name)
    for_each (save_db ln name (db_dirs ln.nodes)) configs
    create_and_write (network_file H ln name) (J.marshal_config (saved_network ln configs))
    create_and_write (state_file H ln name) (J.marshal_texts ln.subnet_id_to_elastic_subnet_id)
    pure (snapshot_dir H ln name)

  -- Nothing but the nodes and the beacons changes when the network is stopped, so that what is
  -- written is that of the network before.
  unfoldable pub save_snapshot : Codec → String → Action (State H) String
  unfolding saved_configs write_snapshot
  save_snapshot J name s =
      (do
        refuse_if s.network.stopping network_stopped
        refuse_if (str_eq name "") invalid_snapshot_name
        found ← on_world H (stat_of H (snapshot_dir H s.network name))
        refuse_if (is_present found) snapshot_exists
        configs ← lift (saved_configs s.network.nodes)
        stop H
        on_world H (write_snapshot J s.network name configs))
        s
