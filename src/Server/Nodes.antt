-- ===== src/Server/Nodes.antt =====
-- server/server.go: the handlers on single nodes.
use netrunner.Prelude.{
  ℕ, String, Bool, List, [], ◌∷◌, ◌++◌, Option, none, some, str_eq, if◌then◌else◌, get_or, false,
}
use netrunner.Prelude.Action.{Action, Result, ok, err, pure, gets, lift, external, ◌>>=◌, ◌>>◌}
use netrunner.Prelude.Dict.{Dict, lookup, insert}
use netrunner.Host.{Host, Value}
use netrunner.Config.{NodeConfig}
use netrunner.Local.Ops.{Changes}
use netrunner.Server.Types.{ClusterInfo}
use netrunner.Server.Runner.{Runner}
use netrunner.Server.State.{
  Server, require_network, on_network, publish_nodes, copy_cluster, on_cluster,
}

pub record AddNodeRequest : Type 0 where
  pub name : String
  pub node_config : String
  pub plugin_dir : String
  pub exec_path : String
  pub chain_configs : Option (Dict String)
  pub upgrade_configs : Option (Dict String)
  pub subnet_configs : Option (Dict String)

module _ (H : Host) where
  -- the flags of the request, and its plugin directory
  unfoldable pub request_flags : AddNodeRequest → Result (Dict Value)
  request_flags req =
      let given = if str_eq req.node_config "" then some [] else H.unmarshal req.node_config in
      elim given [
        | none ↦ err (external "node config")
        | some flags ↦ ok (
            if str_eq req.plugin_dir ""
            then flags
            else insert H.keys.plugin_dir (Value.text req.plugin_dir) flags)
      ]

  unfoldable pub requested_config : Bool → AddNodeRequest → Dict Value → NodeConfig
  requested_config redirect req flags = record {
    name = req.name;
    is_beacon = false;
    staking_key = "";
    staking_cert = "";
    staking_signing_key = "";
    config_file = "";
    chain_config_files = req.chain_configs;
    upgrade_config_files = req.upgrade_configs;
    subnet_config_files = req.subnet_configs;
    flags = some flags;
    binary_path = req.exec_path;
    redirect_stdout = redirect;
    redirect_stderr = redirect;
  }

module _ (H : Host) (R : Runner H) where
  unfoldable pub add_node : AddNodeRequest → Action (Server H R) ClusterInfo
  add_node req = do
    require_network H R
    flags ← lift (request_flags H req)
    redirect ← gets (λ s. s.redirect_nodes_output)
    on_network H R (R.add_node (requested_config H redirect req flags))
    on_network H R R.update_node_info
    publish_nodes H R
    copy_cluster H R

  unfoldable pub remove_node : String → Action (Server H R) ClusterInfo
  remove_node name = do
    on_network H R (R.remove_node name)
    on_network H R R.update_node_info
    publish_nodes H R
    copy_cluster H R

  unfoldable pub restart_node : String → Changes → Action (Server H R) ClusterInfo
  restart_node name changes = do
    on_network H R (R.restart_node name changes)
    on_network H R R.update_node_info
    publish_nodes H R
    copy_cluster H R

  -- These two answer with the server's own ClusterInfo.
  unfoldable pub pause_node : String → Action (Server H R) (Option ClusterInfo)
  pause_node name = do
    on_network H R (R.pause_node name)
    on_network H R R.update_node_info
    publish_nodes H R
    gets (λ s. s.cluster_info)

  unfoldable pub resume_node : String → Action (Server H R) (Option ClusterInfo)
  resume_node name = do
    on_network H R (R.resume_node name)
    on_network H R R.update_node_info
    publish_nodes H R
    gets (λ s. s.cluster_info)

  abbrev peers_of : Option (Dict (List String)) → Dict (List String)
  peers_of none = []
  peers_of (some peers) = peers

  -- the new peer goes to the end of its node's list
  unfoldable pub with_peer : String → String → ClusterInfo → ClusterInfo
  with_peer node_name peer i =
      let peers = peers_of i.attached_peer_infos in
      record i {
        attached_peer_infos =
            some (insert node_name (get_or (lookup node_name peers) [] ++ (peer ∷ [])) peers);
      }

  unfoldable pub attach_peer : String → Action (Server H R) (ClusterInfo × String)
  attach_peer node_name = do
    peer ← on_network H R (R.attach_peer node_name)
    on_cluster H R (with_peer node_name peer)
    copied ← copy_cluster H R
    pure (copied, peer)

  unfoldable pub send_outbound_message : String → String → String → ℕ → Action (Server H R) Bool
  send_outbound_message node_name peer bytes op =
      on_network H R (R.send_message node_name peer bytes op)
