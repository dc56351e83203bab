-- ===== src/Server/Chains.antt =====
-- server/server.go: the handlers on blockchains, subnets and validators.
use netrunner.Prelude.{String, Bool, true, false, List, [], ◌∷◌, none, some, str_eq, if◌then◌else◌}
use netrunner.Prelude.Action.{
  Action, Result, ok, err, pure, lift, refuse_if, no_blockchain_spec, no_subnet_id,
  no_elastic_subnet_spec, no_validator_spec, subnet_does_not_exist, panic, ◌then_check◌, ◌>>=◌,
  ◌>>◌,
}
use netrunner.Prelude.Dict.{keys, contains}
use netrunner.Host.{Host}
use netrunner.Server.Types.{
  ClusterInfo, BlockchainRequest, BlockchainSpec, SubnetSpec, ValidatorRequest,
  RemoveSubnetValidatorSpec, ElasticSubnetSpec, PermissionlessValidatorSpec,
}
use netrunner.Server.Specs.{
  get_network_blockchain_spec, get_network_subnet_spec, get_permissionless_validator_spec,
  get_network_elastic_subnet_spec, make_each,
}
use netrunner.Server.Runner.{Runner, Live}
use netrunner.Server.State.{
  Server, require_network, on_network, on_world, on_cluster, copy_cluster, unhealthy,
  update_cluster_info, or_stop, attempt,
}

abbrev pub is_empty : {A : Type 0} → List A → Bool
is_empty [] = true
is_empty (x ∷ xs) = false

-- A subnet that a specification names must be one of `subnets`.
unfoldable pub subnet_exists : List String → String → Result (Unit {0})
subnet_exists subnets id = if contains id subnets then ok tt else err (subnet_does_not_exist id)

unfoldable pub chain_subnet : List String → BlockchainSpec → Result (Unit {0})
unfolding subnet_exists
chain_subnet subnets spec = elim spec.subnet_id [
  | none ↦ ok tt
  | some id ↦ subnet_exists subnets id
]

unfoldable pub required_subnet : List String → String → Result (Unit {0})
unfolding subnet_exists
required_subnet subnets id = if str_eq id "" then err no_subnet_id else subnet_exists subnets id

unfoldable pub check_each : {A : Type 0} → (A → Result (Unit {0})) → List A → Result (Unit {0})
check_each check [] = ok tt
check_each check (x ∷ xs) = check x then_check check_each check xs

unfoldable pub map_each : {A B : Type 0} → (A → B) → List A → List B
map_each f [] = []
map_each f (x ∷ xs) = f x ∷ map_each f xs

module _ (H : Host) (R : Runner H) where
  -- maps.Keys(s.clusterInfo.Subnets)
  abbrev known_subnets : Action (Server H R) (List String)
  known_subnets s = elim s.cluster_info [
    | none ↦ (err panic, s)
    | some i ↦ (ok (keys i.subnets), s)
  ]

  abbrev plugin_dir : Action (Server H R) String
  plugin_dir s = elim s.network [ none ↦ (err panic, s) | some n ↦ (ok (R.plugin_dir n), s) ]

  unfoldable pub copied_with : {A : Type 0} → A → Action (Server H R) (ClusterInfo × A)
  copied_with a = do copied ← copy_cluster H R; pure (copied, a)

  -- A call of the network whose failure takes the network down.
  unfoldable pub update_or_stop :
      {A : Type 0} → Action (Live R.Network H.World) A → Action (Server H R) A
  update_or_stop m = do
    on_cluster H R (unhealthy H R)
    a ← or_stop H R some (on_network H R m)
    update_cluster_info H R
    pure a

  -- the specifications of a request, checked against the network
  unfoldable pub requested_chains :
      List BlockchainRequest → Action (Server H R) (List BlockchainSpec)
  requested_chains requests = do
    require_network H R
    refuse_if (is_empty requests) no_blockchain_spec
    dir ← plugin_dir
    specs ← on_world H R (make_each H (get_network_blockchain_spec H false dir) requests)
    subnets ← known_subnets
    lift (check_each (chain_subnet subnets) specs)
    pure specs

  unfoldable pub install_chains :
      List BlockchainSpec → Action (Server H R) (ClusterInfo × List String)
  install_chains specs = do
    chain_ids ← update_or_stop (R.create_chains specs)
    copied_with chain_ids

  unfoldable pub create_blockchains :
      List BlockchainRequest → Action (Server H R) (ClusterInfo × List String)
  create_blockchains requests = do specs ← requested_chains requests; install_chains specs

  -- A call of the network whose failure is reported after the cluster's state was updated.
  unfoldable pub update_after :
      {A : Type 0} → Action (Live R.Network H.World) A → Action (Server H R) A
  update_after m = do
    on_cluster H R (unhealthy H R)
    done ← attempt H R (on_network H R m)
    update_cluster_info H R
    lift done

  unfoldable pub requested_validators :
      List ValidatorRequest → Action (Server H R) (List PermissionlessValidatorSpec)
  requested_validators requests = do
    require_network H R
    refuse_if (is_empty requests) no_validator_spec
    specs ← on_world H R (make_each H (get_permissionless_validator_spec H) requests)
    subnets ← known_subnets
    lift (check_each (λ spec. required_subnet subnets spec.subnet_id) specs)
    pure specs

  unfoldable pub add_validators : List PermissionlessValidatorSpec → Action (Server H R) ClusterInfo
  add_validators specs = do update_after (R.add_validators specs); copy_cluster H R

  unfoldable pub add_permissionless_validator :
      List ValidatorRequest → Action (Server H R) ClusterInfo
  add_permissionless_validator requests = do
    specs ← requested_validators requests
    add_validators specs

  unfoldable pub check_removal : List RemoveSubnetValidatorSpec → Action (Server H R) (Unit {0})
  check_removal specs = do
    require_network H R
    refuse_if (is_empty specs) no_validator_spec
    subnets ← known_subnets
    lift (check_each (λ spec. required_subnet subnets spec.subnet_id) specs)

  unfoldable pub remove_validators :
      List RemoveSubnetValidatorSpec → Action (Server H R) ClusterInfo
  remove_validators specs = do update_after (R.remove_validators specs); copy_cluster H R

  unfoldable pub remove_subnet_validator :
      List RemoveSubnetValidatorSpec → Action (Server H R) ClusterInfo
  remove_subnet_validator specs = do check_removal specs; remove_validators specs

  -- `SubnetID` is the address of the request's field, never nil: only its existence is tested.
  unfoldable pub requested_transforms :
      List ElasticSubnetSpec → Action (Server H R) (List ElasticSubnetSpec)
  requested_transforms requests = do
    require_network H R
    refuse_if (is_empty requests) no_elastic_subnet_spec
    let specs = map_each get_network_elastic_subnet_spec requests
    subnets ← known_subnets
    lift (check_each (λ spec. subnet_exists subnets spec.subnet_id) specs)
    pure specs

  unfoldable pub transform_subnets :
      List ElasticSubnetSpec → Action (Server H R) (ClusterInfo × (List String × List String))
  transform_subnets specs = do ids ← update_after (R.transform_subnets specs); copied_with ids

  unfoldable pub transform_elastic_subnets :
      List ElasticSubnetSpec → Action (Server H R) (ClusterInfo × (List String × List String))
  transform_elastic_subnets requests = do
    specs ← requested_transforms requests
    transform_subnets specs

  unfoldable pub requested_subnets : List SubnetSpec → Action (Server H R) (List SubnetSpec)
  requested_subnets requests = do
    require_network H R
    on_world H R (make_each H (get_network_subnet_spec H) requests)

  unfoldable pub install_subnets : List SubnetSpec → Action (Server H R) (ClusterInfo × List String)
  install_subnets specs = do
    subnet_ids ← update_or_stop (R.create_subnets specs)
    copied_with subnet_ids

  unfoldable pub create_subnets : List SubnetSpec → Action (Server H R) (ClusterInfo × List String)
  create_subnets requests = do specs ← requested_subnets requests; install_subnets specs
