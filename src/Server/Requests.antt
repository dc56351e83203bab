-- ===== src/Server/Requests.antt =====
-- server/server.go: one request to the server, whichever it is. The answer is forgotten.
pub mod Consistent
pub mod KeepsChains
pub mod KeepsNodes
pub mod KeepsNetwork
pub mod Invariant
pub mod Guards
pub mod Bootstrap
use netrunner.Prelude.{ℕ, String, List, [], ◌∷◌, Option}
use netrunner.Prelude.Action.{Action, pure, ◌>>=◌}
use netrunner.Prelude.Dict.{Dict}
use netrunner.Host.{Host}
use netrunner.Local.Ops.{Changes}
use netrunner.Server.Types.{
  BlockchainRequest, ValidatorRequest, RemoveSubnetValidatorSpec, ElasticSubnetSpec, SubnetSpec,
}
use netrunner.Server.Runner.{Runner}
use netrunner.Server.State.{Server}
use netrunner.Server.Lifecycle.{StartRequest, LoadSnapshotRequest}
use netrunner.Server.Lifecycle
use netrunner.Server.Nodes.{AddNodeRequest}
use netrunner.Server.Nodes
use netrunner.Server.Chains
use netrunner.Server.Queries

-- the requests of rpcpb.ControlService, but for RPCVersion, which does not look at the network,
-- WaitForHealthy, which is a loop of its own, and the stream of the status
pub data Request : Type 0 where
  start : StartRequest → Request
  load_snapshot : LoadSnapshotRequest → Request
  save_snapshot remove_snapshot : String → Request
  get_snapshot_names stop health uris status : Request
  create_blockchains : List BlockchainRequest → Request
  add_permissionless_validator : List ValidatorRequest → Request
  remove_subnet_validator : List RemoveSubnetValidatorSpec → Request
  transform_elastic_subnets : List ElasticSubnetSpec → Request
  create_subnets : List SubnetSpec → Request
  add_node : AddNodeRequest → Request
  remove_node pause_node resume_node attach_peer : String → Request
  restart_node : String → Changes → Request
  send_outbound_message : String → String → String → ℕ → Request

module _ (H : Host) (R : Runner H) where
  abbrev ignore : {A : Type 0} → Action (Server H R) A → Action (Server H R) (Unit {0})
  ignore m = m >>= λ answer. pure tt

  unfoldable pub serve : Request → Action (Server H R) (Unit {0})
  serve (start req) = ignore (Lifecycle.start H R req)
  serve (load_snapshot req) = ignore (Lifecycle.load_snapshot H R req)
  serve (save_snapshot name) = ignore (Lifecycle.save_snapshot H R name)
  serve (remove_snapshot name) = ignore (Queries.remove_snapshot H R name)
  serve get_snapshot_names = ignore (Queries.get_snapshot_names H R)
  serve stop = ignore (Lifecycle.stop H R)
  serve health = ignore (Queries.health H R)
  serve uris = ignore (Queries.uris H R)
  serve status = ignore (Queries.status H R)
  serve (create_blockchains specs) = ignore (Chains.create_blockchains H R specs)
  serve (add_permissionless_validator specs) =
      ignore (Chains.add_permissionless_validator H R specs)
  serve (remove_subnet_validator specs) = ignore (Chains.remove_subnet_validator H R specs)
  serve (transform_elastic_subnets specs) = ignore (Chains.transform_elastic_subnets H R specs)
  serve (create_subnets specs) = ignore (Chains.create_subnets H R specs)
  serve (add_node req) = ignore (Nodes.add_node H R req)
  serve (remove_node name) = ignore (Nodes.remove_node H R name)
  serve (pause_node name) = ignore (Nodes.pause_node H R name)
  serve (resume_node name) = ignore (Nodes.resume_node H R name)
  serve (restart_node name changes) = ignore (Nodes.restart_node H R name changes)
  serve (attach_peer name) = ignore (Nodes.attach_peer H R name)
  serve (send_outbound_message name peer bytes op) =
      ignore (Nodes.send_outbound_message H R name peer bytes op)

  unfoldable pub serve_all : List Request → Server H R → Server H R
  serve_all [] s = s
  serve_all (r ∷ rs) s = serve_all rs (serve r s).1
