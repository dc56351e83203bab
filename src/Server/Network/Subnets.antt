-- ===== src/Server/Network/Subnets.antt =====
-- server/network.go: what the server reads of the blockchains and subnets (`updateSubnetInfo`), after
-- it has waited for the nodes' health.
use netrunner.Prelude.{
  ℕ, String, Bool, true, false, ◌||◌, List, [], ◌∷◌, none, some, str_eq, if◌then◌else◌, ◌++◌,
  length, not, ◌==◌,
}
use netrunner.Prelude.Action.{
  Action, ok, err, pure, or_raise, modify, for_each, external, panic, validators_missing, refuse_if,
  when, ◌>>=◌, ◌>>◌,
}
use netrunner.Prelude.Dict.{Dict, insert}
use netrunner.Host.{Host}
use netrunner.Local.Types.{State}
use netrunner.Local.Ops.{get_all_nodes}
use netrunner.Local.Choice.{choose_node}
use netrunner.Local.Chains.{Api, Validator, uri_of}
use netrunner.Local.Chains.Healthy.{healthy}
use netrunner.Local.Chains.Permissionless.{get_elastic_subnet_id}
use netrunner.Server.Types.{NodeInfo, CustomChainInfo}
use netrunner.Server.Network.{Kept, update_node_info}

pub record Blockchain : Type 0 where
  pub id : String
  pub name : String
  pub vm_id : String
  pub subnet_id : String

-- more of the P-Chain's API, by URI
pub record PChain (H : Host) : Type 0 where
  pub blockchains : String → Action H.World (List Blockchain)
  pub subnets : String → Action H.World (List String)
  -- platform.getCurrentSupply of a subnet
  pub current_supply : String → String → Action H.World ℕ
  pub platform_chain_id : String
  pub empty_id : String

-- for each validator, the names of the nodes with its ID
unfoldable pub names_with : Dict NodeInfo → String → List String
names_with [] id = []
names_with ((name, i) ∷ infos) id =
    let rest = names_with infos id in if str_eq i.id id then name ∷ rest else rest

unfoldable pub names_of : Dict NodeInfo → List Validator → List String
unfolding names_with
names_of infos [] = []
names_of infos (v ∷ vs) = names_with infos v.node_id ++ names_of infos vs

-- the chains other than those of the primary network
unfoldable pub note_chains : List Blockchain → Dict CustomChainInfo → Dict CustomChainInfo
note_chains [] known = known
note_chains (b ∷ bs) known = note_chains bs (
    if str_eq b.name "C-Chain" || str_eq b.name "X-Chain"
    then known
    else insert b.id
        (record { chain_name = b.name; vm_id = b.vm_id; subnet_id = b.subnet_id; chain_id = b.id })
        known)

module _ (H : Host) where
  -- a call of the network `nw`, which may be nil
  unfoldable pub on_network : {A : Type 0} → Action (State H) A → Action (Kept H) A
  on_network m s = elim s.network [
    | none ↦ (err panic, s)
    | some ln ↦
        let done = m (record { network = ln; world = s.world }) in
        (done.0, record s { network = some done.1.network; world = done.1.world })
  ]

  abbrev pub on_outside : {A : Type 0} → Action H.World A → Action (Kept H) A
  on_outside m s = ((m s.world).0, record s { world = (m s.world).1 })

module _ (H : Host) (A : Api H) (P : PChain H) where
  open A use {validators, id_from_string}
  open P use {blockchains, current_supply, platform_chain_id, empty_id}

  -- the ID of the elastic subnet, if there is a supply for the subnet
  unfoldable pub elastic_id : String → String → Action (Kept H) (Bool × String)
  unfolding on_network get_elastic_subnet_id
  elastic_id uri subnet s =
      let supply = current_supply uri subnet s.world in
      let t = record s { world = supply.1 } in
      elim supply.0 [
        | err e ↦ (ok (false, empty_id), t)
        | ok n ↦ (on_network H (get_elastic_subnet_id H A subnet) >>= λ id. pure (true, id)) t
      ]

  abbrev put_subnet : String → Bool × String → List Validator → Kept H → Kept H
  put_subnet text (elastic, id) vs s = record s {
    subnets =
        insert text
          (record {
            is_elastic = elastic;
            elastic_subnet_id = id;
            participants = names_of s.node_infos vs;
          })
          s.subnets;
  }

  unfoldable pub note_subnet : String → String → Action (Kept H) Unit
  unfolding elastic_id names_of
  note_subnet uri text = do
    subnet ← or_raise (id_from_string text) (external "ids")
    vs ← on_outside H (validators uri subnet)
    elastic ← elastic_id uri subnet
    modify (put_subnet text elastic vs)

  -- the validators of a chain's subnet are nodes of the network
  unfoldable pub check_chain : String → String × CustomChainInfo → Action (Kept H) Unit
  unfolding names_of
  check_chain uri (chain, info) s =
      (do
        vs ← on_outside H (validators uri info.subnet_id)
        refuse_if (not (length (names_of s.node_infos vs) == length vs))
            (validators_missing info.subnet_id))
        s

  -- updateSubnetInfo from the client on
  unfoldable pub read_subnets : String → Action (Kept H) Unit
  unfolding note_chains for_each note_subnet check_chain
  read_subnets uri = do
    chains ← on_outside H (blockchains uri)
    modify (λ s. record s { custom_chains = note_chains chains s.custom_chains })
    subnets ← on_outside H (P.subnets uri)
    for_each (λ id. when (not (str_eq id platform_chain_id)) (note_subnet uri id)) subnets
    (λ s. for_each (check_chain uri) s.custom_chains s)

  -- `node` is nil where no node is chosen, and it is called all the same.
  unfoldable pub update_subnet_info : Action (Kept H) Unit
  unfolding on_network get_all_nodes choose_node read_subnets
  update_subnet_info = do
    nodes ← on_network H (get_all_nodes H)
    n ← or_raise (choose_node H nodes) panic
    read_subnets (uri_of n)

  -- awaitHealthyAndUpdateNetworkInfo
  unfoldable pub await_healthy : Action (Kept H) Unit
  unfolding on_network healthy update_node_info update_subnet_info
  await_healthy = do on_network H (healthy H A); update_node_info H; update_subnet_info
