-- ===== src/Local/Chains/Validators.antt =====
-- local/blockchain.go: making the nodes validators of the primary network and of subnets, and
-- waiting for it.
pub mod Times
use netrunner.Prelude.{
  ℕ, zero, suc, ◌+◌, ◌-◌, ◌/◌, ◌%◌, ltb, String, Bool, true, false, not, ◌&&◌, List, [], ◌∷◌,
  Option, none, some, str_eq, ◌==◌, if◌then◌else◌, get_or, map,
}
use netrunner.Prelude.Action.{
  Action, Result, ok, err, pure, lift, raise, or_raise, when, for_each, for_all, external, panic,
  not_in_network, not_validator, ◌>>=◌, ◌>>◌,
}
use netrunner.Prelude.Dict.{Dict, lookup, contains}
use netrunner.Host.{Host}
use netrunner.Config.{NodeConfig}
use netrunner.Local.Types.{LocalNode, LocalNetwork, State}
use netrunner.Local.Add.{add_node, on_world}
use netrunner.Local.Ops.{Changes}
use netrunner.Server.Types.{PermissionlessValidatorSpec, RemoveSubnetValidatorSpec}
use netrunner.Local.Chains.{Api, SubnetSpec, Validator, Staker, get_client_uri}
use netrunner.Local.Chains.Healthy.{healthy}
use netrunner.Local.Chains.Track.{restart_nodes, Reasons}

abbrev pub ids_of : List Validator → List String
ids_of vs = map (λ v. v.node_id) vs

-- the end time of the last entry with this node ID
abbrev pub end_time_of : String → List Validator → Option ℕ → Option ℕ
end_time_of id [] found = found
end_time_of id (v ∷ vs) found =
    end_time_of id vs (if str_eq v.node_id id then some v.end_time else found)

-- uint64(t.Unix()) of a time; the zero time is the beginning of the year 1
abbrev pub u64 : ℕ → ℕ
u64 n = n % 18446744073709551616

abbrev pub zero_time : ℕ
zero_time = 18446744011573954816

abbrev pub unix : Option ℕ → ℕ
unix none = zero_time
unix (some t) = u64 t

-- node.Config{Name: nodeName}
abbrev pub named_config : String → NodeConfig
named_config name = record {
  name = name;
  is_beacon = false;
  staking_key = "";
  staking_cert = "";
  staking_signing_key = "";
  config_file = "";
  chain_config_files = none;
  upgrade_config_files = none;
  subnet_config_files = none;
  flags = none;
  binary_path = "";
  redirect_stdout = false;
  redirect_stderr = false;
}

-- the times of a permissionless validator, in seconds; `primary_end` is that of its primary one
unfoldable pub start_of : PermissionlessValidatorSpec → ℕ → ℕ
start_of v now = elim v.start_time [ none ↦ u64 (now + 30) | some t ↦ u64 t ]

-- a duration in whole seconds, rounded down: an int64 of nanoseconds in two's complement
abbrev pub seconds_of : ℕ → ℕ
seconds_of d =
    if ltb d 9223372036854775808
    then d / 1000000000
    else 18446744073709551616 - (18446744073709551616 - d + 999999999) / 1000000000

unfoldable pub end_of : PermissionlessValidatorSpec → Option ℕ → ℕ
end_of v primary_end =
    if v.stake_duration == 0
    then unix primary_end
    else u64 (unix v.start_time + seconds_of v.stake_duration)

module _ (H : Host) (A : Api H) where
  open A use {Wallet, validators, primary_network, bls_key, wait_rounds, wait_error}
  open A use {add_primary, add_permissionless, add_subnet_validator, remove_subnet_validator}
  open A use {new_wallet, id_from_string, min_validator_stake}

  abbrev pub seconds : Action (State H) ℕ
  seconds = on_world H (λ w. (ok (H.now w).0, (H.now w).1))

  -- a participant that is not in the network yet
  unfoldable pub add_missing_node : String → Action (State H) (Unit {0})
  add_missing_node name s = elim (lookup name s.network.nodes) [
    | some n ↦ (ok tt, s)
    | none ↦ (add_node H (named_config name) >>= λ _. pure tt) s
  ]

  -- one round of the loop of addPrimaryValidators
  unfoldable pub make_primary : Wallet → List String → LocalNode H → Action (State H) (Unit {0})
  make_primary w current n s =
      if contains n.node_id current
      then (ok tt, s)
      else (do
        bytes ← or_raise (H.base64_decode n.config.staking_signing_key) (external "base64")
        key ← or_raise (bls_key bytes) (external "bls")
        start ← seconds
        end ← seconds
        on_world H (
            add_primary w
              (record {
                node_id = n.node_id;
                start = u64 (start + 20);
                end = u64 (end + 31536000);
                weight = min_validator_stake;
              })
              key)
        pure tt)
          s

  unfoldable pub add_primary_validators : String → Wallet → Action (State H) (Unit {0})
  unfolding make_primary for_each
  add_primary_validators uri w = do
    vs ← on_world H (validators uri primary_network)
    (λ s. for_each (λ (name, n). make_primary w (ids_of vs) n) s.network.nodes s)

  -- one participant in the loop of addSubnetValidators
  unfoldable pub add_participant :
      Wallet → String → List Validator → List String → String → Action (State H) (Unit {0})
  add_participant w subnet primary current name s =
      (do
        n ← or_raise (lookup name s.network.nodes) (not_in_network name)
        when (not (contains n.node_id current)) (do
          now ← seconds
          on_world H (
              add_subnet_validator w
                (record {
                  node_id = n.node_id;
                  start = u64 (now + 20);
                  end = unix (end_time_of n.node_id primary none);
                  weight = 1000;
                })
                subnet)
          pure tt))
        s

  unfoldable pub add_to_subnet : String → Wallet → String × SubnetSpec → Action (State H) (Unit {0})
  unfolding add_participant for_each
  add_to_subnet uri w (subnet, spec) = do
    primary ← on_world H (validators uri primary_network)
    current ← on_world H (validators uri subnet)
    for_each (add_participant w subnet primary (ids_of current)) spec.participants

  unfoldable pub add_subnet_validators :
      String → Wallet → List (String × SubnetSpec) → Action (State H) (Unit {0})
  unfolding add_to_subnet for_each
  add_subnet_validators uri w new = for_each (add_to_subnet uri w) new

  abbrev all_in : List String → Dict (LocalNode H) → Bool
  all_in ids [] = true
  all_in ids ((name, n) ∷ nodes) = contains n.node_id ids && all_in ids nodes

  unfoldable pub wait_primary_rounds : String → ℕ → Action (State H) (Unit {0})
  wait_primary_rounds uri zero s = (err wait_error, s)
  wait_primary_rounds uri (suc n) s =
      let asked = validators uri primary_network s.world in
      let t = record s { world = asked.1 } in
      let again = wait_primary_rounds uri n t in
      elim asked.0 [
        | err e ↦ (err e, t)
        | ok vs ↦ if all_in (ids_of vs) s.network.nodes then (ok tt, t) else again
      ]

  unfoldable pub wait_primary_validators : String → Action (State H) (Unit {0})
  unfolding wait_primary_rounds
  wait_primary_validators uri = wait_primary_rounds uri (suc wait_rounds)

  -- whether all participants of a subnet validate it
  unfoldable pub participants_in : List String → List String → Dict (LocalNode H) → Result Bool
  participants_in ids [] nodes = ok true
  participants_in ids (name ∷ names) nodes =
      let rest = participants_in ids names nodes in
      elim (lookup name nodes) [
        | none ↦ err (not_in_network name)
        | some n ↦ elim rest [ err e ↦ err e | ok b ↦ ok (contains n.node_id ids && b) ]
      ]

  -- one round over the subnets, up to the first that is not ready
  unfoldable pub subnets_ready : String → List (String × SubnetSpec) → Action (State H) Bool
  unfolding participants_in
  subnets_ready uri [] s = (ok true, s)
  subnets_ready uri ((subnet, spec) ∷ more) s =
      (do
        vs ← on_world H (validators uri subnet)
        ready ← lift (participants_in (ids_of vs) spec.participants s.network.nodes)
        if ready then subnets_ready uri more else pure false)
        s

  unfoldable pub wait_subnet_rounds :
      String → List (String × SubnetSpec) → ℕ → Action (State H) (Unit {0})
  unfolding subnets_ready
  wait_subnet_rounds uri new zero s = (err wait_error, s)
  wait_subnet_rounds uri new (suc n) s =
      let asked = subnets_ready uri new s in
      let again = wait_subnet_rounds uri new n asked.1 in
      elim asked.0 [
        | err e ↦ (err e, asked.1)
        | ok ready ↦ if ready then (ok tt, asked.1) else again
      ]

  unfoldable pub wait_subnet_validators :
      String → List (String × SubnetSpec) → Action (State H) (Unit {0})
  unfolding wait_subnet_rounds
  wait_subnet_validators uri new = wait_subnet_rounds uri new (suc wait_rounds)
