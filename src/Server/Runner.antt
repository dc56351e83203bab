-- ===== src/Server/Runner.antt =====
-- What the handlers call of server/network.go and local/: the network that the server controls.
-- `Network` is the `localNetwork` of the server package with the `network.Network` in it. A call
-- changes it and the world outside.
use netrunner.Prelude.{ℕ, String, Bool, List}
use netrunner.Prelude.Action.{Action}
use netrunner.Prelude.Dict.{Dict}
use netrunner.Host.{Host}
use netrunner.Config.{NodeConfig}
use netrunner.Local.Ops.{Changes}
use netrunner.Server.Types.{
  NodeInfo, CustomChainInfo, SubnetInfo, Options, BlockchainSpec, SubnetSpec, ElasticSubnetSpec,
  PermissionlessValidatorSpec, RemoveSubnetValidatorSpec, ClusterInfo,
}

pub record Live (Network World : Type 0) : Type 0 where
  pub network : Network
  pub world : World

pub record Runner (H : Host) : Type 1 where
  pub Network : Type 0
  pub new_local_network : Options → Action H.World Network
  pub start : Action (Live Network H.World) Unit
  pub load_snapshot : String → Action (Live Network H.World) Unit
  pub await_healthy : Action (Live Network H.World) Unit
  pub update_node_info : Action (Live Network H.World) Unit
  pub create_chains : List BlockchainSpec → Action (Live Network H.World) (List String)
  pub create_subnets : List SubnetSpec → Action (Live Network H.World) (List String)
  pub transform_subnets :
      List ElasticSubnetSpec → Action (Live Network H.World) (List String × List String)
  pub add_validators : List PermissionlessValidatorSpec → Action (Live Network H.World) Unit
  pub remove_validators : List RemoveSubnetValidatorSpec → Action (Live Network H.World) Unit
  pub add_node : NodeConfig → Action (Live Network H.World) Unit
  pub remove_node : String → Action (Live Network H.World) Unit
  pub restart_node : String → Changes → Action (Live Network H.World) Unit
  pub pause_node : String → Action (Live Network H.World) Unit
  pub resume_node : String → Action (Live Network H.World) Unit
  -- GetNode, then AttachPeer or SendOutboundMessage on it
  pub attach_peer : String → Action (Live Network H.World) String
  pub send_message : String → String → String → ℕ → Action (Live Network H.World) Bool
  pub save_snapshot : String → Action (Live Network H.World) String
  pub remove_snapshot : String → Action (Live Network H.World) Unit
  pub get_snapshot_names : Action (Live Network H.World) (List String)
  -- Stop: the network is not used after it
  pub stop : Network → H.World → H.World
  pub node_infos : Network → Dict NodeInfo
  pub custom_chains : Network → Dict CustomChainInfo
  pub subnets : Network → Dict SubnetInfo
  pub plugin_dir : Network → String
  -- encoding/json of a ClusterInfo, and back
  pub json_copy : ClusterInfo → Action H.World ClusterInfo
