-- ===== src/Local/Snapshots/Load.antt =====
-- local/snapshot.go: `loadSnapshot`.
use netrunner.Prelude.{String, Bool, List, [], ◌∷◌, Option, none, some, str_eq, if◌then◌else◌, map}
use netrunner.Prelude.Action.{
  Action, Result, ok, err, pure, lift, or_raise, modify, for_each, for_all, collect, panic,
  snapshot_not_found, snapshot_unreadable, external, ◌>>=◌, ◌>>◌,
}
use netrunner.Prelude.Dict.{Dict, insert, put_all}
use netrunner.Host.{Host, Value}
use netrunner.Config.{NodeConfig, NetworkConfig, or_empty}
use netrunner.Utils.{stat_result}
use netrunner.Local.Types.{LocalNetwork, State}
use netrunner.Local.Add.{on_world}
use netrunner.Local.Load.{load_config, new_network}
use netrunner.Local.Snapshots.{Codec, snapshot_dir, network_file, state_file, db_dir}
use netrunner.Local.Snapshots.Flags.{fix_map, fix_node}
use netrunner.Local.Snapshots.Names.{stat_of}

-- what the caller gives besides the snapshot's name
pub record Overrides : Type 0 where
  pub binary_path : String
  pub plugin_dir : String
  pub chain_configs : Dict String
  pub upgrade_configs : Dict String
  pub subnet_configs : Dict String
  pub flags : Dict Value

-- for k, v := range src { dst[k] = v }, where `dst` may be nil
unfoldable pub write_flags : Dict Value → Option (Dict Value) → Result (Option (Dict Value))
write_flags [] dst = ok dst
write_flags (e ∷ src) none = err panic
write_flags (e ∷ src) (some dst) = ok (some (put_all (e ∷ src) dst))

-- `src` put into the flags of a node
unfoldable pub flagged : Dict Value → NodeConfig → Result NodeConfig
unfolding write_flags
flagged src c = elim (write_flags src c.flags) [
  | err e ↦ err e
  | ok flags ↦ ok (record c { flags = flags })
]

-- the binary, and the maps of configurations, which are made if they are nil
unfoldable pub overridden : Overrides → NodeConfig → NodeConfig
overridden o c = record c {
  binary_path = if str_eq o.binary_path "" then c.binary_path else o.binary_path;
  chain_config_files = some (put_all o.chain_configs (or_empty c.chain_config_files));
  upgrade_config_files = some (put_all o.upgrade_configs (or_empty c.upgrade_config_files));
  subnet_config_files = some (put_all o.subnet_configs (or_empty c.subnet_config_files));
}

module _ (H : Host) where
  open H use {World, keys, join, copy_dir, read_file, read_optional}

  -- a node's database, copied to where the node will look for it
  unfoldable pub load_db : LocalNetwork H → String → NodeConfig → Action World NodeConfig
  unfolding flagged
  load_db ln name c = do
    let target = join (join ln.root_dir c.name) "db"
    copy_dir (join (db_dir H ln name) c.name) target
    lift (flagged ((keys.db_path, Value.text target) ∷ []) c)

  abbrev pub plugin_flag : String → Dict Value
  plugin_flag dir = if str_eq dir "" then [] else (keys.plugin_dir, Value.text dir) ∷ []

  -- the nodes' configurations, from those of the file
  unfoldable pub restored_nodes :
      LocalNetwork H → String → Overrides → List NodeConfig → Action World (List NodeConfig)
  unfolding flagged for_all collect load_db overridden
  restored_nodes ln name o cs = do
    fixed ← lift (collect (fix_node H) cs)
    given ← lift (collect (flagged o.flags) fixed)
    placed ← for_all (load_db ln name) given
    plugged ← lift (collect (flagged (plugin_flag o.plugin_dir)) placed)
    pure (map (overridden o) plugged)

  -- the configuration in the file network.json
  unfoldable pub restored_config :
      Codec → LocalNetwork H → String → Overrides → Action World NetworkConfig
  unfolding restored_nodes
  restored_config J ln name o = do
    file ← read_file (network_file H ln name)
    c ← or_raise (J.unmarshal_config file) snapshot_unreadable
    flags ← lift (fix_map H c.flags)
    nodes ← restored_nodes ln name o c.node_configs
    pure (record c { flags = flags; node_configs = nodes })

  abbrev put_elastic : String → String → State H → State H
  put_elastic subnet elastic s = record s {
    network = record s.network {
      subnet_id_to_elastic_subnet_id =
          insert subnet elastic s.network.subnet_id_to_elastic_subnet_id;
    };
  }

  abbrev no_elastic : State H → State H
  no_elastic s = record s { network = record s.network { subnet_id_to_elastic_subnet_id = [] } }

  unfoldable pub load_elastic : Codec → String × String → Action (State H) (Unit {0})
  load_elastic J entry = do
    subnet ← or_raise (J.id_from_string entry.0) (external "ids")
    elastic ← or_raise (J.id_from_string entry.1) (external "ids")
    modify (put_elastic subnet elastic)

  -- the file state.json, which old snapshots do not have
  unfoldable pub load_state : Codec → Option String → Action (State H) (Unit {0})
  unfolding load_elastic for_each
  load_state J none s = (ok tt, s)
  load_state J (some file) s =
      (do
        entries ← or_raise (J.unmarshal_texts file) snapshot_unreadable
        modify no_elastic
        for_each (load_elastic J) entries)
        s

  unfoldable pub load_snapshot : Codec → String → Overrides → Action (State H) (Unit {0})
  unfolding stat_result restored_config load_state
  load_snapshot J name o s =
      (do
        found ← on_world H (stat_of H (snapshot_dir H s.network name))
        lift (stat_result snapshot_not_found found)
        c ← on_world H (restored_config J s.network name o)
        file ← on_world H (read_optional (state_file H s.network name))
        load_state J file
        load_config H c)
        s

  -- NewNetworkFromSnapshot: the network is returned with the error of `loadSnapshot` too.
  unfoldable pub start_from_snapshot :
      Codec
      → String
      → Overrides
      → String
      → String
      → Bool
      → World
      → Result (Unit {0}) × Option (LocalNetwork H) × World
  unfolding new_network load_snapshot
  start_from_snapshot J name o root snapshots reassign w =
      let made = new_network H root snapshots reassign w in
      elim made.0 [
        | err e ↦ (err e, none, made.1)
        | ok ln ↦
            let loaded = load_snapshot J name o (record { network = ln; world = made.1 }) in
            (loaded.0, some loaded.1.network, loaded.1.world)
      ]
