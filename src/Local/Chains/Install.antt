-- ===== src/Local/Chains/Install.antt =====
-- local/blockchain.go: installing subnets and blockchains on a running network.
use netrunner.Prelude.{
  String, ◌||◌, List, [], ◌∷◌, Option, none, some, ltb, if◌then◌else◌, length, map,
}
use netrunner.Prelude.Action.{
  Action, Result, ok, err, pure, lift, or_raise, for_each, for_all, panic, ◌>>=◌, ◌>>◌,
}
use netrunner.Prelude.Dict.{keys}
use netrunner.Host.{Host}
use netrunner.Utils.{vm_id}
use netrunner.Local.Types.{State}
use netrunner.Local.Chains.{Api, SubnetSpec, BlockchainSpec, BlockchainInfo, get_client_uri}
use netrunner.Local.Chains.Sets.{sort}
use netrunner.Local.Chains.Healthy.{healthy}
use netrunner.Local.Chains.Track.{restart_nodes}
use netrunner.Local.Chains.ConfigFiles.{set_subnet_config_files, set_blockchain_config_files}
use netrunner.Local.Chains.Validators.{
  add_missing_node, add_primary_validators, add_subnet_validators, wait_primary_validators,
  wait_subnet_validators,
}
use netrunner.Local.Chains.Permissionless.{parse_id, wallet_for}
use netrunner.Local.Chains.Create.{
  create_subnets, create_blockchain_tx, issue_blockchain, reload_vm_plugins, register_alias,
  wait_for_custom_chains_ready,
}

-- if no participants are given, all nodes are participants
unfoldable pub with_participants : List String → List SubnetSpec → List SubnetSpec
with_participants names [] = []
with_participants names (spec ∷ specs) =
    let rest = with_participants names specs in
    elim spec.participants [
      | [] ↦ record spec { participants = names } ∷ rest
      | k ∷ ks ↦ spec ∷ rest
    ]

-- the subnets of requests: those that exist, and the specifications of those that do not
unfoldable pub given_subnets : List BlockchainSpec → List String
given_subnets [] = []
given_subnets (c ∷ cs) =
    let rest = given_subnets cs in elim c.subnet_id [ none ↦ rest | some id ↦ id ∷ rest ]

abbrev spec_or_empty : Option SubnetSpec → SubnetSpec
spec_or_empty none = record { participants = []; subnet_config = none }
spec_or_empty (some spec) = spec

unfoldable pub missing_subnets : List BlockchainSpec → List SubnetSpec
missing_subnets [] = []
missing_subnets (c ∷ cs) =
    let rest = missing_subnets cs in
    elim c.subnet_id [ none ↦ spec_or_empty c.subnet_spec ∷ rest | some id ↦ rest ]

-- chainSpecs[i].SubnetID = &subnetIDStr, in order; there is an ID for each
unfoldable pub assign_subnets :
    List (String × SubnetSpec) → List BlockchainSpec → Result (List BlockchainSpec)
assign_subnets new [] = ok []
assign_subnets [] (c ∷ cs) =
    let rest = assign_subnets [] cs in
    elim c.subnet_id [
      | none ↦ err panic
      | some id ↦ elim rest [ err e ↦ err e | ok ds ↦ ok (c ∷ ds) ]
    ]
assign_subnets ((id, spec) ∷ new) (c ∷ cs) =
    let used = assign_subnets new cs in
    let kept = assign_subnets ((id, spec) ∷ new) cs in
    elim c.subnet_id [
      | none ↦ elim used [ err e ↦ err e | ok ds ↦ ok (record c { subnet_id = some id } ∷ ds) ]
      | some given ↦ elim kept [ err e ↦ err e | ok ds ↦ ok (c ∷ ds) ]
    ]

module _ (H : Host) (A : Api H) where
  open A use {Wallet, reload}

  -- what installing subnets and blockchains have in common, up to the new subnets' configurations
  unfoldable pub prepare_subnets :
      String → Wallet → List SubnetSpec → Action (State H) (List (String × SubnetSpec))
  unfolding with_participants sort for_each add_missing_node healthy add_primary_validators
      create_subnets set_subnet_config_files
  prepare_subnets uri w specs s =
      (do
        let full = with_participants (sort (keys s.network.nodes)) specs
        for_each (λ spec. for_each (add_missing_node H A) spec.participants) full
        healthy H A
        add_primary_validators H A uri w
        new ← create_subnets H A w full
        set_subnet_config_files H new
        pure new)
        s

  -- installSubnets
  unfoldable pub install_subnets : List SubnetSpec → Action (State H) (List String)
  unfolding get_client_uri wallet_for prepare_subnets wait_primary_validators add_subnet_validators
      restart_nodes wait_subnet_validators
  install_subnets specs s =
      (do
        uri ← lift (get_client_uri H s.network)
        w ← wallet_for H A uri []
        new ← prepare_subnets uri w specs
        wait_primary_validators H A uri
        add_subnet_validators H A uri w new
        restart_nodes H A
            (record { subnets = some new; validators = none; removals = none; config_updates = [] })
        wait_subnet_validators H A uri new
        pure (map (λ (id, spec). id) new))
        s

  -- the restart of installCustomChains, after which the wallet goes to another node
  unfoldable pub restart_for_chains :
      Wallet → List (String × SubnetSpec) → List String → Action (State H) Wallet
  unfolding restart_nodes get_client_uri
  restart_for_chains w new updated =
      if ltb 0 (length new) || ltb 0 (length updated)
      then (do
        restart_nodes H A (record {
          subnets = some new;
          validators = none;
          removals = none;
          config_updates = updated;
        })
        uri ← (λ s. (get_client_uri H s.network, s))
        pure (reload uri w))
      else pure w

  unfoldable pub info_of : BlockchainSpec × String → Action (State H) BlockchainInfo
  unfolding vm_id
  info_of (spec, tx) = do
    vm ← lift (vm_id H spec.vm_name)
    given ← or_raise spec.subnet_id panic
    subnet ← parse_id H A given
    pure (record { chain_name = spec.vm_name; vm_id = vm; subnet_id = subnet; blockchain_id = tx })

  -- installCustomChains
  unfoldable pub install_custom_chains :
      List BlockchainSpec → Action (State H) (List (BlockchainSpec × BlockchainInfo))
  unfolding get_client_uri wallet_for given_subnets missing_subnets prepare_subnets assign_subnets
      wait_primary_validators add_subnet_validators create_blockchain_tx set_blockchain_config_files
      restart_for_chains reload_vm_plugins wait_subnet_validators issue_blockchain info_of for_each
      for_all
  install_custom_chains specs s =
      (do
        uri ← lift (get_client_uri H s.network)
        w ← wallet_for H A uri (given_subnets specs)
        new ← prepare_subnets uri w (missing_subnets specs)
        chains ← lift (assign_subnets new specs)
        wait_primary_validators H A uri
        add_subnet_validators H A uri w new
        txs ← for_all (create_blockchain_tx H A w) chains
        updated ← set_blockchain_config_files H A txs new []
        w2 ← restart_for_chains w new updated
        reload_vm_plugins H A
        wait_subnet_validators H A uri new
        for_each (issue_blockchain H A w2) txs
        for_all (λ tx. info_of tx >>= λ info. pure (tx.0, info)) txs)
        s

  -- CreateBlockchains
  unfoldable pub create_blockchains : List BlockchainSpec → Action (State H) (List String)
  unfolding install_custom_chains wait_for_custom_chains_ready register_alias for_each
  create_blockchains specs = do
    chains ← install_custom_chains specs
    wait_for_custom_chains_ready H A (map (λ (spec, info). info) chains)
    for_each (register_alias H A) chains
    pure (map (λ (spec, info). info.blockchain_id) chains)
