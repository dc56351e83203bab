-- ===== src/Local/Args/Built.antt =====
-- What `buildArgs` returns, entry by entry.
use netrunner.Prelude.{String, ◌≡◌, arith}
use netrunner.Prelude.Action.{ok}
use netrunner.Prelude.Dict.{Dict}
use netrunner.Host.{Host, Value}
use netrunner.Config.{NodeConfig, or_empty}
use netrunner.Local.Types.{LocalNetwork}
use netrunner.Local.Entries.{get_config_entry}
use netrunner.Local.Ports.{get_port}
use netrunner.Local.Args.{NodeData, build_args}

-- Each part of the result is the entry of the configuration that names it.
pub record IsBuilt (H : Host) (ln : LocalNetwork H) (file : Dict Value) (dir : String)
    (c : NodeConfig) (made : NodeData) : Type 0 where
  pub http_host : get_config_entry (or_empty c.flags) file H.keys.http_host "" ≡ ok made.http_host
  pub data_dir : get_config_entry (or_empty c.flags) file H.keys.data_dir dir ≡ ok made.data_dir
  pub plugin_dir :
      get_config_entry (or_empty c.flags) file H.keys.plugin_dir "" ≡ ok made.plugin_dir
  pub db_dir :
      get_config_entry (or_empty c.flags) file H.keys.db_path (H.join made.data_dir "db")
      ≡ ok made.db_dir
  pub logs_dir :
      get_config_entry (or_empty c.flags) file H.keys.logs_dir (H.join made.data_dir "logs")
      ≡ ok made.logs_dir
  pub api_port :
      (w : H.World) × ((get_port H
          (or_empty c.flags)
          file
          H.keys.http_port
          ln.reassign_ports_if_used
          w).0
        ≡ ok made.api_port)
  pub p2p_port :
      (w : H.World) × ((get_port H
          (or_empty c.flags)
          file
          H.keys.staking_port
          ln.reassign_ports_if_used
          w).0
        ≡ ok made.p2p_port)

pub build_args-IsBuilt :
    (H : Host) (ln : LocalNetwork H) (version : String) (file : Dict Value) (dir : String)
    (c : NodeConfig) (w : H.World) (made : NodeData)
    → (build_args H ln version file dir c w).0 ≡ ok made
    → IsBuilt H ln file dir c made
unfolding build_args
build_args-IsBuilt H ln version file dir c w made h = record {
  http_host = ground arith;
  data_dir = ground arith;
  plugin_dir = ground arith;
  db_dir = ground arith;
  logs_dir = ground arith;
  api_port = (w, ground arith);
  p2p_port = (
    (get_port H (or_empty c.flags) file H.keys.http_port ln.reassign_ports_if_used w).1,
    ground arith,
  );
}
