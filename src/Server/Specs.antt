-- ===== src/Server/Specs.antt =====
-- server/server.go: from the specifications of a request to those of the network.
use netrunner.Prelude.{
  ℕ, ◌+◌, ◌*◌, ◌%◌, String, Bool, ◌&&◌, List, [], ◌∷◌, Option, none, some, str_eq, ltb,
  if◌then◌else◌, is_some,
}
use netrunner.Prelude.Action.{
  Action, Result, ok, err, pure, or_raise, lift, refuse_if, external, subnet_id_given,
  invalid_vm_name, start_time_too_soon, ◌>>=◌, ◌>>◌,
}
use netrunner.Prelude.Dict.{Dict}
use netrunner.Host.{Host, Value}
use netrunner.Utils.{check_plugin_path, vm_id}
use netrunner.Server.Types.{
  SubnetSpec, BlockchainRequest, BlockchainSpec, ValidatorRequest, PermissionlessValidatorSpec,
  ElasticSubnetSpec,
}

-- time.Duration(h) * time.Hour in nanoseconds: an int64, which wraps
abbrev pub hours : ℕ → ℕ
hours h = (h * 3600000000000) % 18446744073709551616

module _ (H : Host) where
  open H use {World, read_file, join, unmarshal, marshal_value, parse_time, now}

  abbrev contents_or : String → Result String → String
  contents_or conf (ok bytes) = bytes
  contents_or conf (err e) = conf

  -- the contents of the file, or the text itself if no file can be read there
  unfoldable pub read_file_or_string : String → Action World String
  read_file_or_string conf w = (ok (contents_or conf (read_file conf w).0), (read_file conf w).1)

  -- if text != "" { bytes = readFileOrString(text) }
  unfoldable pub read_if_given : String → Action World String
  unfolding read_file_or_string
  read_if_given text = if str_eq text "" then pure "" else read_file_or_string text

  -- json.Marshal of each node's entry
  unfoldable pub node_configs : Dict Value → Dict String
  node_configs [] = []
  node_configs ((name, cfg) ∷ rest) = (name, marshal_value cfg) ∷ node_configs rest

  unfoldable pub per_node_chain_configs : String → Action World (Dict String)
  unfolding read_file_or_string node_configs
  per_node_chain_configs text =
      if str_eq text ""
      then pure []
      else (read_file_or_string text >>= λ bytes.
          or_raise (unmarshal bytes) (external "per node chain config") >>= λ m.
          pure (node_configs m))

  unfoldable pub check_plugin : String → String → Action World (Unit {0})
  unfolding check_plugin_path
  check_plugin plugin_dir id =
      if str_eq plugin_dir "" then pure tt else check_plugin_path H (join plugin_dir id)

  abbrev config_of : Option SubnetSpec → String
  config_of none = ""
  config_of (some spec) = spec.subnet_config

  abbrev with_config : String → Option SubnetSpec → Option SubnetSpec
  with_config bytes none = none
  with_config bytes (some spec) = some (record spec { subnet_config = bytes })

  abbrev vm_result : Result String → Result String
  vm_result (ok id) = ok id
  vm_result (err e) = err invalid_vm_name

  unfoldable pub get_network_blockchain_spec :
      Bool → String → BlockchainRequest → Action World BlockchainSpec
  get_network_blockchain_spec is_new_empty_network plugin_dir spec = do
    refuse_if (is_new_empty_network && is_some spec.subnet_id) subnet_id_given
    id ← lift (vm_result (vm_id H spec.vm_name))
    check_plugin plugin_dir id
    genesis ← read_file_or_string spec.genesis
    chain_config ← read_if_given spec.chain_config
    network_upgrade ← read_if_given spec.network_upgrade
    subnet_config ← read_if_given (config_of spec.subnet_spec)
    per_node ← per_node_chain_configs spec.per_node_chain_config
    pure (record {
      vm_name = spec.vm_name;
      genesis = genesis;
      subnet_id = spec.subnet_id;
      subnet_spec = with_config subnet_config spec.subnet_spec;
      chain_config = chain_config;
      network_upgrade = network_upgrade;
      blockchain_alias = spec.blockchain_alias;
      per_node_chain_config = per_node;
    })

  unfoldable pub get_network_subnet_spec : SubnetSpec → Action World SubnetSpec
  unfolding read_if_given
  get_network_subnet_spec spec = do
    bytes ← read_if_given spec.subnet_config
    pure (record spec { subnet_config = bytes })

  -- A start time is optional; if given, it is at least 25 seconds from now.
  unfoldable pub start_time : String → Action World (Option ℕ)
  start_time text w = if str_eq text "" then (ok none, w) else elim (parse_time text) [
    | none ↦ (err (external "time"), w)
    | some t ↦ (if ltb t ((now w).0 + 25) then err start_time_too_soon else ok (some t), (now w).1)
  ]

  unfoldable pub get_permissionless_validator_spec :
      ValidatorRequest → Action World PermissionlessValidatorSpec
  unfolding start_time
  get_permissionless_validator_spec spec = do
    start ← start_time spec.start_time
    pure (record {
      subnet_id = spec.subnet_id;
      asset_id = spec.asset_id;
      node_name = spec.node_name;
      staked_amount = spec.staked_token_amount;
      start_time = start;
      stake_duration = hours spec.stake_duration;
    })

  -- for _, spec := range specs { ...; list = append(list, made) }
  unfoldable pub make_each : {A B : Type 0} → (A → Action World B) → List A → Action World (List B)
  make_each make [] w = (ok [], w)
  make_each make (x ∷ xs) w = (do y ← make x; ys ← make_each make xs; pure (y ∷ ys)) w

unfoldable pub get_network_elastic_subnet_spec : ElasticSubnetSpec → ElasticSubnetSpec
get_network_elastic_subnet_spec spec = record spec {
  min_stake_duration = hours spec.min_stake_duration;
  max_stake_duration = hours spec.max_stake_duration;
  max_validator_weight_factor = spec.max_validator_weight_factor % 256;
}
