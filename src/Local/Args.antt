-- ===== src/Local/Args.antt =====
-- local/network.go: the arguments of a luxd process (`buildArgs`, `getFlagsForLuxdVersion`).
pub mod Versions
pub mod Precedence
pub mod Built
pub use Versions.{DeprecatedFlag, deprecated_flags_support}
unfoldable pub use Versions.{get_flags_for_luxd_version}
use netrunner.Prelude.{
  ℕ, String, Bool, true, false, ◌||◌, List, [], ◌∷◌, ◌<>◌, Option, none, some, str_eq,
  if◌then◌else◌,
}
use netrunner.Prelude.Action.{Result, Action, pure, lift, ◌>>=◌, ◌>>◌}
use netrunner.Prelude.Dict.{Dict, insert, put_all}
use netrunner.Prelude.Decimal.{decimal}
use netrunner.Host.{Host, Value}
use netrunner.Config.{NodeConfig, or_empty}
use netrunner.Local.Types.{LocalNetwork}
use netrunner.Local.Entries.{get_config_entry}
use netrunner.Local.Ports.{get_port}
use netrunner.Local.Files.{write_files}

-- buildArgsReturn
pub record NodeData : Type 0 where
  pub args : List String
  pub api_port : ℕ
  pub p2p_port : ℕ
  pub data_dir : String
  pub db_dir : String
  pub logs_dir : String
  pub plugin_dir : String
  pub http_host : String

module _ (H : Host) where
  open H use {World, keys, show_value, ips_arg, ids_arg, join}

  -- the flags that the runner itself sets
  unfoldable pub runner_flags : LocalNetwork H → String → String → String → ℕ → ℕ → Dict String
  runner_flags ln data_dir db_dir logs_dir api_port p2p_port =
      (keys.network_name, decimal ln.network_id)
      ∷ (keys.data_dir, data_dir)
      ∷ (keys.db_path, db_dir)
      ∷ (keys.logs_dir, logs_dir)
      ∷ (keys.http_port, decimal api_port)
      ∷ (keys.staking_port, decimal p2p_port)
      ∷ (keys.bootstrap_ips, ips_arg ln.bootstraps)
      ∷ (keys.bootstrap_ids, ids_arg ln.bootstraps)
      ∷ []

  -- portFlags.Contains(flagName)
  abbrev pub is_port_flag : String → Bool
  is_port_flag k = str_eq k keys.http_port || str_eq k keys.staking_port

  -- for flagName, flagVal := range nodeConfig.Flags { ...; flags[flagName] = text }
  unfoldable pub add_node_flags : Dict Value → Dict String → Dict String
  add_node_flags [] flags = flags
  add_node_flags ((k, v) ∷ given) flags =
      let rest = add_node_flags given flags in
      if is_port_flag k then rest else insert k (show_value v) rest

  -- fmt.Sprintf("--%s=%s", k, v)
  unfoldable pub args_of : Dict String → List String
  args_of [] = []
  args_of ((k, v) ∷ flags) = ("--" <> k <> "=" <> v) ∷ args_of flags

  unfoldable pub build_args :
      LocalNetwork H → String → Dict Value → String → NodeConfig → Action World NodeData
  build_args ln node_sem_ver config_file node_dir c = do
    let given = or_empty c.flags
    http_host ← lift (get_config_entry given config_file keys.http_host "")
    data_dir ← lift (get_config_entry given config_file keys.data_dir node_dir)
    plugin_dir ← lift (get_config_entry given config_file keys.plugin_dir "")
    db_dir ← lift (get_config_entry given config_file keys.db_path (join data_dir "db"))
    logs_dir ← lift (get_config_entry given config_file keys.logs_dir (join data_dir "logs"))
    api_port ← get_port H given config_file keys.http_port ln.reassign_ports_if_used
    p2p_port ← get_port H given config_file keys.staking_port ln.reassign_ports_if_used
    file_flags ← write_files H ln.network_id ln.genesis data_dir c
    let own = put_all file_flags (runner_flags ln data_dir db_dir logs_dir api_port p2p_port)
    pure (record {
      args = args_of (get_flags_for_luxd_version H node_sem_ver (add_node_flags given own));
      api_port = api_port;
      p2p_port = p2p_port;
      data_dir = data_dir;
      db_dir = db_dir;
      logs_dir = logs_dir;
      plugin_dir = plugin_dir;
      http_host = http_host;
    })
