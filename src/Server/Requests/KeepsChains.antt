-- ===== src/Server/Requests/KeepsChains.antt =====
-- The handlers on blockchains, subnets and validators keep the server's state consistent.
use netrunner.Prelude.{List, arith}
use netrunner.Prelude.Action.{Action}
use netrunner.Host.{Host}
use netrunner.Server.Types.{
  BlockchainRequest, BlockchainSpec, ValidatorRequest, RemoveSubnetValidatorSpec, ElasticSubnetSpec,
  SubnetSpec, PermissionlessValidatorSpec,
}
use netrunner.Server.Runner.{Runner, Live}
use netrunner.Server.State.{update_cluster_info, stop_and_remove_network, copy_cluster}
use netrunner.Server.Chains
use netrunner.Server.Requests.Consistent.{Keeps, Keeps-bind, Keeps-copy_cluster}

module _ (H : Host) (R : Runner H) where
  Keeps-update_after :
      {A : Type 0} (m : Action (Live R.Network H.World) A) → Keeps (Chains.update_after H R m)
  unfolding Chains.update_after update_cluster_info
  Keeps-update_after m s c = record { described = ground arith; down = ground arith }

  Keeps-update_or_stop :
      {A : Type 0} (m : Action (Live R.Network H.World) A) → Keeps (Chains.update_or_stop H R m)
  unfolding Chains.update_or_stop update_cluster_info stop_and_remove_network
  Keeps-update_or_stop m s c = record { described = ground arith; down = ground arith }

  Keeps-copied_with : {A : Type 0} (a : A) → Keeps (Chains.copied_with H R a)
  unfolding Chains.copied_with
  Keeps-copied_with a s c = record { described = ground arith; down = ground arith }

  Keeps-requested_chains :
      (requests : List BlockchainRequest) → Keeps (Chains.requested_chains H R requests)
  unfolding Chains.requested_chains
  Keeps-requested_chains requests s c = record { described = ground arith; down = ground arith }

  Keeps-install_chains : (specs : List BlockchainSpec) → Keeps (Chains.install_chains H R specs)
  unfolding Chains.install_chains
  Keeps-install_chains specs =
      Keeps-bind (Chains.update_or_stop H R (R.create_chains specs)) (Chains.copied_with H R)
        (Keeps-update_or_stop (R.create_chains specs)) (Keeps-copied_with)

  pub Keeps-create_blockchains :
      (requests : List BlockchainRequest) → Keeps (Chains.create_blockchains H R requests)
  unfolding Chains.create_blockchains
  Keeps-create_blockchains requests =
      Keeps-bind (Chains.requested_chains H R requests) ((Chains.install_chains H R))
        (Keeps-requested_chains requests) (Keeps-install_chains)

  Keeps-requested_validators :
      (requests : List ValidatorRequest) → Keeps (Chains.requested_validators H R requests)
  unfolding Chains.requested_validators
  Keeps-requested_validators requests s c = record { described = ground arith; down = ground arith }

  Keeps-add_validators :
      (specs : List PermissionlessValidatorSpec) → Keeps (Chains.add_validators H R specs)
  unfolding Chains.add_validators
  Keeps-add_validators specs =
      Keeps-bind (Chains.update_after H R (R.add_validators specs)) (λ _. copy_cluster H R)
        (Keeps-update_after (R.add_validators specs)) (λ _. Keeps-copy_cluster H R)

  pub Keeps-add_permissionless_validator :
      (requests : List ValidatorRequest) → Keeps (Chains.add_permissionless_validator H R requests)
  unfolding Chains.add_permissionless_validator
  Keeps-add_permissionless_validator requests =
      Keeps-bind (Chains.requested_validators H R requests) ((Chains.add_validators H R))
        (Keeps-requested_validators requests) (Keeps-add_validators)

  Keeps-check_removal :
      (requests : List RemoveSubnetValidatorSpec) → Keeps (Chains.check_removal H R requests)
  unfolding Chains.check_removal
  Keeps-check_removal requests s c = record { described = ground arith; down = ground arith }

  Keeps-remove_validators :
      (specs : List RemoveSubnetValidatorSpec) → Keeps (Chains.remove_validators H R specs)
  unfolding Chains.remove_validators
  Keeps-remove_validators specs =
      Keeps-bind (Chains.update_after H R (R.remove_validators specs)) (λ _. copy_cluster H R)
        (Keeps-update_after (R.remove_validators specs)) (λ _. Keeps-copy_cluster H R)

  pub Keeps-remove_subnet_validator :
      (requests : List RemoveSubnetValidatorSpec)
      → Keeps (Chains.remove_subnet_validator H R requests)
  unfolding Chains.remove_subnet_validator
  Keeps-remove_subnet_validator requests =
      Keeps-bind (Chains.check_removal H R requests) (λ _. Chains.remove_validators H R requests)
        (Keeps-check_removal requests) (λ _. Keeps-remove_validators requests)

  Keeps-requested_transforms :
      (requests : List ElasticSubnetSpec) → Keeps (Chains.requested_transforms H R requests)
  unfolding Chains.requested_transforms
  Keeps-requested_transforms requests s c = record { described = ground arith; down = ground arith }

  Keeps-transform_subnets :
      (specs : List ElasticSubnetSpec) → Keeps (Chains.transform_subnets H R specs)
  unfolding Chains.transform_subnets
  Keeps-transform_subnets specs =
      Keeps-bind (Chains.update_after H R (R.transform_subnets specs)) (Chains.copied_with H R)
        (Keeps-update_after (R.transform_subnets specs)) (Keeps-copied_with)

  pub Keeps-transform_elastic_subnets :
      (requests : List ElasticSubnetSpec) → Keeps (Chains.transform_elastic_subnets H R requests)
  unfolding Chains.transform_elastic_subnets
  Keeps-transform_elastic_subnets requests =
      Keeps-bind (Chains.requested_transforms H R requests) ((Chains.transform_subnets H R))
        (Keeps-requested_transforms requests) (Keeps-transform_subnets)

  Keeps-requested_subnets :
      (requests : List SubnetSpec) → Keeps (Chains.requested_subnets H R requests)
  unfolding Chains.requested_subnets
  Keeps-requested_subnets requests s c = record { described = ground arith; down = ground arith }

  Keeps-install_subnets : (specs : List SubnetSpec) → Keeps (Chains.install_subnets H R specs)
  unfolding Chains.install_subnets
  Keeps-install_subnets specs =
      Keeps-bind (Chains.update_or_stop H R (R.create_subnets specs)) (Chains.copied_with H R)
        (Keeps-update_or_stop (R.create_subnets specs)) (Keeps-copied_with)

  pub Keeps-create_subnets :
      (requests : List SubnetSpec) → Keeps (Chains.create_subnets H R requests)
  unfolding Chains.create_subnets
  Keeps-create_subnets requests =
      Keeps-bind (Chains.requested_subnets H R requests) ((Chains.install_subnets H R))
        (Keeps-requested_subnets requests) (Keeps-install_subnets)
