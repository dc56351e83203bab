-- ===== src/Local/Chains/Permissionless.antt =====
-- local/blockchain.go: adding permissionless validators and removing validators of subnets.
use netrunner.Prelude.{String, not, List, [], none, some, map}
use netrunner.Prelude.Action.{
  Action, pure, lift, or_raise, refuse_if, for_each, for_all, external, panic, not_in_network,
  not_validator, no_elastic_subnet, ◌>>=◌, ◌>>◌,
}
use netrunner.Prelude.Dict.{lookup, contains}
use netrunner.Host.{Host}
use netrunner.Local.Types.{State}
use netrunner.Local.Add.{on_world}
use netrunner.Server.Types.{PermissionlessValidatorSpec, RemoveSubnetValidatorSpec}
use netrunner.Local.Chains.{Api, Validator, get_client_uri}
use netrunner.Local.Chains.Healthy.{healthy}
use netrunner.Local.Chains.Track.{restart_nodes}
use netrunner.Local.Chains.Validators.{
  ids_of, end_time_of, start_of, end_of, seconds, add_missing_node, add_primary_validators,
  wait_primary_validators,
}

module _ (H : Host) (A : Api H) where
  open A use {Wallet, validators, primary_network, id_from_string, new_wallet}
  open A use {add_permissionless, remove_subnet_validator}

  abbrev pub parse_id : String → Action (State H) String
  parse_id text = or_raise (id_from_string text) (external "ids")

  -- a wallet that knows the transactions of the given subnets
  unfoldable pub wallet_for : String → List String → Action (State H) Wallet
  unfolding for_all
  wallet_for uri subnets = do ids ← for_all parse_id subnets; on_world H (new_wallet uri ids)

  -- one validator in the loop of addPermissionlessValidators
  unfoldable pub add_one :
      Wallet → List Validator → PermissionlessValidatorSpec → Action (State H) (Unit {0})
  unfolding start_of end_of
  add_one w primary v s =
      (do
        n ← or_raise (lookup v.node_name s.network.nodes) panic
        subnet ← parse_id v.subnet_id
        asset ← parse_id v.asset_id
        now ← elim v.start_time [ none ↦ seconds H A | some t ↦ pure t ]
        on_world H (
            add_permissionless w
              (record {
                node_id = n.node_id;
                start = start_of v now;
                end = end_of v (end_time_of n.node_id primary none);
                weight = v.staked_amount;
              })
              subnet asset)
        pure tt)
        s

  unfoldable pub add_permissionless_validators :
      List PermissionlessValidatorSpec → Action (State H) (Unit {0})
  unfolding get_client_uri wallet_for for_each add_missing_node healthy add_primary_validators
      wait_primary_validators add_one restart_nodes
  add_permissionless_validators vs s =
      (do
        uri ← lift (get_client_uri H s.network)
        w ← wallet_for uri (map (λ v. v.subnet_id) vs)
        for_each (λ v. add_missing_node H A v.node_name) vs
        healthy H A
        add_primary_validators H A uri w
        wait_primary_validators H A uri
        primary ← on_world H (validators uri primary_network)
        for_each (add_one w primary) vs
        restart_nodes H A
            (record { subnets = none; validators = some vs; removals = none; config_updates = [] }))
        s

  -- one node of one specification in the loops of removeSubnetValidators
  unfoldable pub remove_one : Wallet → String → List String → String → Action (State H) (Unit {0})
  remove_one w subnet current name s =
      (do
        n ← or_raise (lookup name s.network.nodes) (not_in_network name)
        refuse_if (not (contains n.node_id current)) (not_validator name)
        on_world H (remove_subnet_validator w n.node_id subnet)
        pure tt)
        s

  unfoldable pub remove_from_subnet :
      String → Wallet → RemoveSubnetValidatorSpec → Action (State H) (Unit {0})
  unfolding remove_one for_each
  remove_from_subnet uri w r = do
    subnet ← parse_id r.subnet_id
    vs ← on_world H (validators uri subnet)
    for_each (remove_one w subnet (ids_of vs)) r.node_names

  unfoldable pub remove_subnet_validators :
      List RemoveSubnetValidatorSpec → Action (State H) (Unit {0})
  unfolding get_client_uri wallet_for for_each remove_from_subnet restart_nodes
  remove_subnet_validators rs s =
      (do
        uri ← lift (get_client_uri H s.network)
        w ← wallet_for uri (map (λ r. r.subnet_id) rs)
        for_each (remove_from_subnet uri w) rs
        restart_nodes H A
            (record { subnets = none; validators = none; removals = some rs; config_updates = [] }))
        s

  -- GetElasticSubnetID
  unfoldable pub get_elastic_subnet_id : String → Action (State H) String
  get_elastic_subnet_id subnet s =
      or_raise (lookup subnet s.network.subnet_id_to_elastic_subnet_id) (no_elastic_subnet subnet) s
