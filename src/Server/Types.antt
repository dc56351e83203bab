-- ===== src/Server/Types.antt =====
-- The messages of rpcpb/rpc.proto that the handlers read and write, and the specifications of
-- network/network.go that they make of them.
use netrunner.Prelude.{ℕ, String, Bool, List, Option}
use netrunner.Prelude.Dict.{Dict}

pub record NodeInfo : Type 0 where
  pub name : String
  pub uri : String
  pub id : String
  pub exec_path : String
  pub log_dir : String
  pub db_dir : String
  pub config : String
  pub plugin_dir : String
  pub whitelisted_subnets : String
  pub paused : Bool

pub record CustomChainInfo : Type 0 where
  pub chain_name : String
  pub vm_id : String
  pub subnet_id : String
  pub chain_id : String

pub record SubnetInfo : Type 0 where
  pub is_elastic : Bool
  pub elastic_subnet_id : String
  pub participants : List String

pub record ClusterInfo : Type 0 where
  pub node_names : List String
  pub node_infos : Dict NodeInfo
  pub pid : ℕ
  pub root_data_dir : String
  pub healthy : Bool
  -- the IDs of the attached peers, by node; the map is made by the first AttachPeer
  pub attached_peer_infos : Option (Dict (List String))
  pub custom_chains_healthy : Bool
  pub custom_chains : Dict CustomChainInfo
  pub subnets : Dict SubnetInfo

-- rpcpb.SubnetSpec, and network.SubnetSpec with the bytes of the configuration
pub record SubnetSpec : Type 0 where
  pub participants : List String
  pub subnet_config : String

-- rpcpb.BlockchainSpec
pub record BlockchainRequest : Type 0 where
  pub vm_name : String
  pub genesis : String
  pub subnet_id : Option String
  pub subnet_spec : Option SubnetSpec
  pub chain_config : String
  pub network_upgrade : String
  pub blockchain_alias : String
  pub per_node_chain_config : String

-- network.BlockchainSpec
pub record BlockchainSpec : Type 0 where
  pub vm_name : String
  pub genesis : String
  pub subnet_id : Option String
  pub subnet_spec : Option SubnetSpec
  pub chain_config : String
  pub network_upgrade : String
  pub blockchain_alias : String
  pub per_node_chain_config : Dict String

-- rpcpb.PermissionlessValidatorSpec; times in seconds
pub record ValidatorRequest : Type 0 where
  pub subnet_id : String
  pub asset_id : String
  pub node_name : String
  pub staked_token_amount : ℕ
  pub start_time : String
  pub stake_duration : ℕ

pub record PermissionlessValidatorSpec : Type 0 where
  pub subnet_id : String
  pub asset_id : String
  pub node_name : String
  pub staked_amount : ℕ
  pub start_time : Option ℕ
  pub stake_duration : ℕ

pub record RemoveSubnetValidatorSpec : Type 0 where
  pub node_names : List String
  pub subnet_id : String

-- rpcpb.ElasticSubnetSpec; network.ElasticSubnetSpec has the same fields, with durations in hours
-- multiplied out and the weight factor cut to a byte
pub record ElasticSubnetSpec : Type 0 where
  pub subnet_id : String
  pub asset_name : String
  pub asset_symbol : String
  pub initial_supply : ℕ
  pub max_supply : ℕ
  pub min_consumption_rate : ℕ
  pub max_consumption_rate : ℕ
  pub min_validator_stake : ℕ
  pub max_validator_stake : ℕ
  pub min_stake_duration : ℕ
  pub max_stake_duration : ℕ
  pub min_delegation_fee : ℕ
  pub min_delegator_stake : ℕ
  pub max_validator_weight_factor : ℕ
  pub uptime_requirement : ℕ

-- localNetworkOptions of server/network.go, as far as requests set them
pub record Options : Type 0 where
  pub exec_path : String
  pub root_data_dir : String
  pub num_nodes : ℕ
  pub track_subnets : String
  pub redirect_nodes_output : Bool
  pub global_node_config : String
  pub plugin_dir : String
  pub custom_node_configs : Dict String
  pub chain_configs : Dict String
  pub upgrade_configs : Dict String
  pub subnet_configs : Dict String
  pub snapshots_dir : String
  pub reassign_ports_if_used : Bool
  pub dynamic_ports : Bool
