-- ===== src/Server/Network.antt =====
-- server/network.go: the server's `localNetwork`, and what it reads of its nodes for the server
-- (`updateNodeInfo`), with `GetFlag` of local/node.go.
pub mod Scraped
pub mod Infos
pub mod Subnets
pub mod Methods
pub mod Paused
use netrunner.Prelude.{
  ℕ, String, Bool, true, false, List, [], ◌∷◌, Option, none, some, str_eq, if◌then◌else◌, ◌<>◌,
  get_or, not,
}
use netrunner.Prelude.Action.{
  Action, Result, ok, err, lift, or_raise, modify, when, for_each, external, panic, wrong_type,
  network_stopped, refuse_if, result_of, ◌>>=◌, ◌>>◌,
}
use netrunner.Prelude.Dict.{Dict, lookup, insert}
use netrunner.Host.{Host, Value, as_text}
use netrunner.Config.{NodeConfig}
use netrunner.Local.Types.{LocalNode, LocalNetwork}
use netrunner.Local.Chains.{uri_of}
use netrunner.Local.Snapshots.Names.{trim_prefix}
use netrunner.Server.Types.{Options, NodeInfo, CustomChainInfo, SubnetInfo}

-- `localNetwork` of the server, and the world outside
pub record Kept (H : Host) : Type 0 where
  pub exec_path : String
  pub plugin_dir : String
  pub network : Option (LocalNetwork H)
  pub node_infos : Dict NodeInfo
  pub options : Options
  pub custom_chains : Dict CustomChainInfo
  pub subnets : Dict SubnetInfo
  pub prometheus_conf_path : String
  pub world : H.World

-- a flag that is a text, "" if it is missing
unfoldable pub text_of_flag : String → Option Value → Result String
text_of_flag key none = ok ""
text_of_flag key (some v) = result_of (as_text v) (wrong_type key)

-- what is written for each node that is not paused
unfoldable pub scraped : Dict NodeInfo → String
unfolding trim_prefix
scraped [] = ""
scraped ((name, i) ∷ infos) =
    (if i.paused then "" else "        - " <> trim_prefix i.uri "http://" <> "\n") <> scraped infos

abbrev pub prometheus_conf_common : String
prometheus_conf_common =
    "global:\n" <> "  scrape_interval: 15s\n" <> "  evaluation_interval: 15s\n"
    <> "scrape_configs:\n" <> "  - job_name: prometheus\n" <> "    static_configs:\n"
    <> "      - targets: \n" <> "        - localhost:9090\n" <> "  - job_name: node-machine\n"
    <> "    static_configs:\n" <> "     - targets: \n" <> "       - localhost:9100\n"
    <> "       labels:\n" <> "         alias: machine\n" <> "  - job_name: node\n"
    <> "    metrics_path: /ext/metrics\n" <> "    static_configs:\n" <> "      - targets:\n"

abbrev pub prometheus_conf : Dict NodeInfo → String
prometheus_conf infos = prometheus_conf_common <> scraped infos

module _ (H : Host) where
  open H use {unmarshal, join, create_and_write}

  -- GetFlag of local/node.go: the config file, if there is one, and else the flags
  unfoldable pub get_flag : LocalNode H → String → Result String
  unfolding text_of_flag
  get_flag n key =
      if str_eq n.config.config_file ""
      then elim n.config.flags [ none ↦ ok "" | some m ↦ text_of_flag key (lookup key m) ]
      else elim (unmarshal n.config.config_file) [
        | none ↦ err (external "config file")
        | some m ↦ text_of_flag key (lookup key m)
      ]

  unfoldable pub describe : LocalNode H → String → NodeInfo
  describe n tracked = record {
    name = n.name;
    uri = uri_of n;
    id = n.node_id;
    exec_path = n.config.binary_path;
    log_dir = n.logs_dir;
    db_dir = n.db_dir;
    config = n.config.config_file;
    plugin_dir = n.plugin_dir;
    whitelisted_subnets = tracked;
    paused = n.paused;
  }

  -- the new entry, and the default paths if they are empty
  unfoldable pub noted : String → LocalNode H → String → Kept H → Kept H
  unfolding describe
  noted name n tracked s = record s {
    node_infos = insert name (describe n tracked) s.node_infos;
    exec_path = if str_eq s.exec_path "" then n.config.binary_path else s.exec_path;
    plugin_dir = if str_eq s.plugin_dir "" then n.plugin_dir else s.plugin_dir;
  }

  -- one round of the loop over the nodes
  unfoldable pub note_node : String × LocalNode H → Action (Kept H) Unit
  unfolding get_flag noted
  note_node (name, n) =
      lift (get_flag n H.keys.track_subnets) >>= λ tracked. modify (noted name n tracked)

  unfoldable pub generate_prometheus_conf : Action (Kept H) Unit
  generate_prometheus_conf s =
      let path =
        if str_eq s.prometheus_conf_path ""
        then join s.options.root_data_dir "prometheus.yaml"
        else s.prometheus_conf_path in
      let written = create_and_write path (prometheus_conf s.node_infos) s.world in
      (written.0, record s { prometheus_conf_path = path; world = written.1 })

  -- updateNodeInfo from the nodes on
  unfoldable pub describe_nodes : Dict (LocalNode H) → Action (Kept H) Unit
  unfolding note_node generate_prometheus_conf
  describe_nodes nodes =
      modify (λ s. record s { node_infos = [] })
      >> for_each note_node nodes
      >> generate_prometheus_conf

  unfoldable pub update_node_info : Action (Kept H) Unit
  unfolding describe_nodes
  update_node_info s =
      (do
        ln ← or_raise s.network panic
        refuse_if ln.stopping network_stopped
        describe_nodes ln.nodes)
        s
