-- ===== src/Local/Chains.antt =====
-- local/blockchain.go: subnets, blockchains and validators of a running network, over the wallet and
-- the API clients of github.com/luxdefi/node.
pub mod Sets
pub mod Healthy
pub mod Track
pub mod ConfigFiles
pub mod Validators
pub mod Permissionless
pub mod Create
pub mod Transform
pub mod Install
use netrunner.Prelude.{ℕ, String, Bool, ◌||◌, ◌<>◌, Option, none, some, List, str_eq, if◌then◌else◌}
use netrunner.Prelude.Action.{Action, Result, ok, err, Error, panic}
use netrunner.Prelude.Dict.{Dict}
use netrunner.Prelude.Decimal.{decimal}
use netrunner.Host.{Host}
use netrunner.Local.Types.{LocalNode, LocalNetwork}
use netrunner.Server.Types.{ElasticSubnetSpec}
use netrunner.Local.Choice.{choose_node}

-- network.SubnetSpec and network.BlockchainSpec; bytes that may be nil are an Option
pub record SubnetSpec : Type 0 where
  pub participants : List String
  pub subnet_config : Option String

pub record BlockchainSpec : Type 0 where
  pub vm_name : String
  pub genesis : String
  pub subnet_id : Option String
  pub subnet_spec : Option SubnetSpec
  pub chain_config : Option String
  pub network_upgrade : Option String
  pub blockchain_alias : String
  pub per_node_chain_config : Dict String

pub record BlockchainInfo : Type 0 where
  pub chain_name : String
  pub vm_id : String
  pub subnet_id : String
  pub blockchain_id : String

-- an entry of platform.getCurrentValidators
pub record Validator : Type 0 where
  pub node_id : String
  pub end_time : ℕ

-- txs.Validator
pub record Staker : Type 0 where
  pub node_id : String
  pub start : ℕ
  pub end : ℕ
  pub weight : ℕ

-- The wallet, the clients of a node's APIs, and time. An ID is its text.
pub record Api (H : Host) : Type 1 where
  pub Wallet : Type 0
  pub new_wallet : String → List String → Action H.World Wallet
  pub reload : String → Wallet → Wallet
  pub id_from_string : String → Option String
  pub primary_network : String
  pub min_validator_stake : ℕ
  -- bls.SecretKeyFromBytes
  pub bls_key : String → Option String
  -- platform.getCurrentValidators at a URI, of a subnet
  pub validators : String → String → Action H.World (List Validator)
  -- the transactions, with their IDs
  pub add_primary : Wallet → Staker → String → Action H.World String
  pub add_permissionless : Wallet → Staker → String → String → Action H.World String
  pub add_subnet_validator : Wallet → Staker → String → Action H.World String
  pub remove_subnet_validator : Wallet → String → String → Action H.World String
  pub create_subnet : Wallet → Action H.World String
  -- an asset with name, symbol and supply; moving an amount of it from the X-Chain to the P-Chain; and
  -- the transformation of a subnet with this asset
  pub create_asset : Wallet → String → String → ℕ → Action H.World String
  pub export_asset : Wallet → String → ℕ → Action H.World Unit
  pub import_assets : Wallet → Action H.World Unit
  pub transform_subnet : Wallet → String → String → ElasticSubnetSpec → Action H.World String
  -- a signed transaction for a subnet, with genesis, VM ID and VM name, which the backend accepted
  pub create_chain_tx : Wallet → String → String → String → String → Action H.World String
  pub issue_chain_tx : Wallet → String → Action H.World String
  -- admin.loadVMs at a URI, with the VMs that failed; admin.aliasChain
  pub load_vms : String → Action H.World (List String)
  pub alias_chain : String → String → String → Action H.World Unit
  -- node.Status() is running; the health API answers that the node is healthy
  pub is_running : H.Process → H.World → Bool × H.World
  pub is_healthy : String → H.World → Bool × H.World
  -- the goroutines that take a turn, by node, until the context is done
  pub turns : H.World → List String
  -- the rounds of a waiting loop until the network stops or the context is done, and its error then
  pub wait_rounds : ℕ
  pub wait_error : Error

-- GetURL of local/node.go
abbrev pub host_of : {H : Host} → LocalNode H → String
host_of n =
    if str_eq n.http_host "0.0.0.0" || str_eq n.http_host "." then "0.0.0.0" else "127.0.0.1"

abbrev pub uri_of : {H : Host} → LocalNode H → String
uri_of n = "http://" <> host_of n <> ":" <> decimal n.api_port

module _ (H : Host) where
  abbrev chosen_uri : Option (LocalNode H) → Result String
  chosen_uri none = err panic
  chosen_uri (some n) = ok (uri_of n)

  -- getClientURI: a nil node is dereferenced
  unfoldable pub get_client_uri : LocalNetwork H → Result String
  get_client_uri ln = chosen_uri (choose_node H ln.nodes)
