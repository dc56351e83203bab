-- ===== src/Local/Chains/ConfigFiles.antt =====
-- local/blockchain.go: the configuration files that nodes get for new chains and subnets.
pub mod Written
use netrunner.Prelude.{
  ℕ, String, Bool, true, false, ◌||◌, List, [], ◌∷◌, Option, none, some, str_eq, ◌==◌,
  if◌then◌else◌, length, is_some, get_or, ltb, ◌++◌,
}
use netrunner.Prelude.Action.{
  Action, Result, ok, err, pure, lift, or_raise, raise, when, for_each, panic, external,
  not_in_network, validators_missing, ◌>>=◌, ◌>>◌,
}
use netrunner.Prelude.Dict.{Dict, lookup, insert}
use netrunner.Host.{Host}
use netrunner.Config.{NodeConfig}
use netrunner.Local.Types.{LocalNode, LocalNetwork, State}
use netrunner.Local.Add.{on_world}
use netrunner.Local.Chains.{Api, SubnetSpec, BlockchainSpec, Validator, get_client_uri}
use netrunner.Local.Chains.Sets.{add_members}

-- the names of the nodes with the ID `id`, after `names`
unfoldable pub names_of : {H : Host} → String → Dict (LocalNode H) → List String
names_of id [] = []
names_of id ((k, n) ∷ nodes) =
    let rest = names_of id nodes in if str_eq id n.node_id then k ∷ rest else rest

unfoldable pub names_of_all : {H : Host} → List Validator → Dict (LocalNode H) → List String
unfolding names_of
names_of_all [] nodes = []
names_of_all (v ∷ vs) nodes = names_of v.node_id nodes ++ names_of_all vs nodes

-- ln.nodes[nodeName].config.SubnetConfigFiles[key] = text, and the same for the other two maps; a
-- write to a nil map panics
unfoldable pub put_text : String → String → Option (Dict String) → Result (Option (Dict String))
put_text key text none = err panic
put_text key text (some m) = ok (some (insert key text m))

unfoldable pub with_subnet_config : String → String → NodeConfig → Result NodeConfig
unfolding put_text
with_subnet_config key text c = elim (put_text key text c.subnet_config_files) [
  | err e ↦ err e
  | ok m ↦ ok (record c { subnet_config_files = m })
]

unfoldable pub with_chain_config : String → String → NodeConfig → Result NodeConfig
unfolding put_text
with_chain_config key text c = elim (put_text key text c.chain_config_files) [
  | err e ↦ err e
  | ok m ↦ ok (record c { chain_config_files = m })
]

unfoldable pub with_upgrade_config : String → String → NodeConfig → Result NodeConfig
unfolding put_text
with_upgrade_config key text c = elim (put_text key text c.upgrade_config_files) [
  | err e ↦ err e
  | ok m ↦ ok (record c { upgrade_config_files = m })
]

module _ (H : Host) where
  abbrev put_config : String → LocalNode H → NodeConfig → State H → State H
  put_config name n c s = record s {
    network = record s.network { nodes = insert name (record n { config = c }) s.network.nodes };
  }

  -- a change of the configuration of the node `name`
  unfoldable pub change_config :
      (NodeConfig → Result NodeConfig) → String → Action (State H) (Unit {0})
  change_config f name s = elim (lookup name s.network.nodes) [
    | none ↦ (err (not_in_network name), s)
    | some n ↦ elim (f n.config) [ err e ↦ (err e, s) | ok c ↦ (ok tt, put_config name n c s) ]
  ]

  -- the configuration of one new subnet, if it has any
  unfoldable pub set_one_subnet : String × SubnetSpec → Action (State H) (Unit {0})
  unfolding for_each change_config with_subnet_config
  set_one_subnet (id, spec) s = elim spec.subnet_config [
    | none ↦ (ok tt, s)
    | some text ↦ for_each (change_config (with_subnet_config id text)) spec.participants s
  ]

  -- setSubnetConfigFiles
  unfoldable pub set_subnet_config_files : List (String × SubnetSpec) → Action (State H) (Unit {0})
  unfolding set_one_subnet for_each
  set_subnet_config_files = for_each set_one_subnet

module _ (H : Host) (A : Api H) where
  open A use {validators, id_from_string}

  -- getSubnetValidatorsNodenames
  unfoldable pub get_subnet_validators_nodenames : String → Action (State H) (List String)
  unfolding get_client_uri names_of_all
  get_subnet_validators_nodenames subnet s =
      (do
        uri ← lift (get_client_uri H s.network)
        vs ← on_world H (validators uri subnet)
        let names = names_of_all vs s.network.nodes
        if length names == length vs then pure names else raise (validators_missing subnet))
        s

  -- the participants of the last new subnet with this ID, none if there is no such subnet
  unfoldable pub new_participants : String → List (String × SubnetSpec) → List String → List String
  new_participants id [] found = found
  new_participants id ((new, spec) ∷ more) found =
      new_participants id more (if str_eq id new then spec.participants else found)

  unfoldable pub participants_of :
      String → List (String × SubnetSpec) → Action (State H) (List String)
  unfolding new_participants get_subnet_validators_nodenames
  participants_of id new s = elim (new_participants id new []) [
    | [] ↦ get_subnet_validators_nodenames id s
    | k ∷ ks ↦ (ok (k ∷ ks), s)
  ]

  -- the node's own configuration of the chain goes before the common one; nil bytes are no text
  abbrev chain_config_for : BlockchainSpec → String → String
  chain_config_for spec name =
      get_or (lookup name spec.per_node_chain_config) (get_or spec.chain_config "")

  abbrev has_chain_config : BlockchainSpec → Bool
  has_chain_config spec = is_some spec.chain_config || ltb 0 (length spec.per_node_chain_config)

  -- the two loops over the participants of one chain
  unfoldable pub set_one_chain : BlockchainSpec → String → List String → Action (State H) (Unit {0})
  unfolding for_each change_config with_chain_config with_upgrade_config
  set_one_chain spec alias names = do
    when (has_chain_config spec) (
        for_each
          (λ name. change_config H (with_chain_config alias (chain_config_for spec name)) name)
          names)
    elim spec.network_upgrade [
      | none ↦ pure tt
      | some text ↦ for_each (change_config H (with_upgrade_config alias text)) names
    ]

  abbrev to_restart : BlockchainSpec → List String → List String → List String
  to_restart spec names found =
      if has_chain_config spec || is_some spec.network_upgrade
      then add_members names found
      else found

  -- setBlockchainConfigFiles: each chain with the ID of its transaction, and the nodes to restart
  unfoldable pub set_blockchain_config_files :
      List (BlockchainSpec × String)
      → List (String × SubnetSpec)
      → List String
      → Action (State H) (List String)
  unfolding participants_of set_one_chain
  set_blockchain_config_files [] new found s = (ok found, s)
  set_blockchain_config_files ((spec, tx) ∷ more) new found s =
      (do
        given ← or_raise spec.subnet_id panic
        id ← or_raise (id_from_string given) (external "ids")
        names ← participants_of id new
        set_one_chain spec tx names
        set_blockchain_config_files more new (to_restart spec names found))
        s
