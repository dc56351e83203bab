-- ===== src/Local/Chains/Track.antt =====
-- local/blockchain.go: restarting the nodes that begin or cease to track subnets (`restartNodes`).
pub mod Tracked
use netrunner.Prelude.{
  String, Bool, true, false, ◌&&◌, ◌||◌, List, [], ◌∷◌, Option, none, some, str_eq, if◌then◌else◌,
  is_some, not,
}
use netrunner.Prelude.Action.{
  Action, Result, ok, err, lift, or_raise, modify, refuse_if, when, for_each, wrong_type, panic,
  one_kind_of_spec, ◌>>=◌, ◌>>◌,
}
use netrunner.Prelude.Dict.{Dict, lookup, insert, keys, contains}
use netrunner.Host.{Host, Value, as_text}
use netrunner.Config.{NodeConfig, or_empty}
use netrunner.Local.Types.{LocalNode, LocalNetwork, State}
use netrunner.Local.Ops.{Changes, share_maps, restart_node}
use netrunner.Server.Types.{PermissionlessValidatorSpec, RemoveSubnetValidatorSpec}
use netrunner.Local.Chains.{Api, SubnetSpec}
use netrunner.Local.Chains.Sets.{add_member, drop_member, sort, split, join_texts, set_of}
use netrunner.Local.Chains.Healthy.{healthy}

-- `trackSubnetIDsSet` and `needsRestart` of one node
pub record Plan : Type 0 where
  pub tracked : List String
  pub needs_restart : Bool

-- if validatorSpec.NodeName == node.name { ... }
unfoldable pub with_validators : String → List PermissionlessValidatorSpec → Plan → Plan
with_validators name [] p = p
with_validators name (v ∷ vs) p = with_validators name vs (
    if str_eq v.node_name name
    then record { tracked = add_member v.subnet_id p.tracked; needs_restart = true }
    else p)

unfoldable pub without_subnet : String → String → List String → Plan → Plan
unfolding drop_member
without_subnet name subnet [] p = p
without_subnet name subnet (k ∷ ks) p = without_subnet name subnet ks (
    if str_eq k name
    then record { tracked = drop_member subnet p.tracked; needs_restart = true }
    else p)

unfoldable pub with_removals : String → List RemoveSubnetValidatorSpec → Plan → Plan
unfolding without_subnet
with_removals name [] p = p
with_removals name (r ∷ rs) p =
    with_removals name rs (without_subnet name r.subnet_id r.node_names p)

unfoldable pub with_subnet : String → String → List String → Plan → Plan
with_subnet name subnet [] p = p
with_subnet name subnet (k ∷ ks) p = with_subnet name subnet ks (
    if str_eq k name
    then record { tracked = add_member subnet p.tracked; needs_restart = true }
    else p)

-- A new subnet's ID and its specification stand at the same index.
unfoldable pub with_subnets : String → List (String × SubnetSpec) → Plan → Plan
unfolding with_subnet
with_subnets name [] p = p
with_subnets name ((id, spec) ∷ more) p =
    with_subnets name more (with_subnet name id spec.participants p)

-- the subnets that the node's flags name
unfoldable pub tracked_before : Option Value → Result (List String)
unfolding set_of split
tracked_before none = ok []
tracked_before (some v) = elim (as_text v) [
  | none ↦ err (wrong_type "track-subnets")
  | some text ↦ ok (if str_eq text "" then [] else set_of (split text))
]

abbrev pub or_nil : {X : Type 0} → Option (List X) → List X
or_nil none = []
or_nil (some xs) = xs

-- what restartNodes is given; a nil slice is none
pub record Reasons : Type 0 where
  pub subnets : Option (List (String × SubnetSpec))
  pub validators : Option (List PermissionlessValidatorSpec)
  pub removals : Option (List RemoveSubnetValidatorSpec)
  pub config_updates : List String

unfoldable pub plan : String → Reasons → List String → Plan
unfolding with_validators with_removals with_subnets
plan name r before = with_subnets name (or_nil r.subnets) (
    with_removals name (or_nil r.removals) (
      with_validators name (or_nil r.validators)
        (record { tracked = before; needs_restart = false })))

-- the restart also for changed configurations, where there are new subnets
abbrev must_restart : String → Reasons → Plan → Bool
must_restart name r p = p.needs_restart || (is_some r.subnets && contains name r.config_updates)

abbrev more_than_one : Reasons → Bool
more_than_one r =
    (is_some r.subnets && is_some r.validators)
    || (is_some r.subnets && is_some r.removals)
    || (is_some r.validators && is_some r.removals)

abbrev pub no_changes : Changes
no_changes = record {
  binary_path = "";
  plugin_dir = "";
  track_subnets = "";
  chain_configs = [];
  upgrade_configs = [];
  subnet_configs = [];
}

module _ (H : Host) (A : Api H) where
  open H use {keys as flag_keys}

  -- nodeConfig.Flags[config.TrackSubnetsKey] = tracked, in the map that the node shares
  unfoldable pub tracking : List String → NodeConfig → Result NodeConfig
  unfolding sort join_texts
  tracking ids c = elim c.flags [
    | none ↦ err panic
    | some flags ↦ ok (record c {
      flags = some (insert flag_keys.track_subnets (Value.text (join_texts (sort ids))) flags);
    })
  ]

  -- one round of the loop over the nodes
  unfoldable pub restart_one : Reasons → String → Action (State H) (Unit {0})
  unfolding tracked_before plan tracking
  restart_one r name s =
      (do
        n ← or_raise (lookup name s.network.nodes) panic
        before ← lift (tracked_before (lookup flag_keys.track_subnets (or_empty n.config.flags)))
        let p = plan name r before
        c ← lift (tracking p.tracked n.config)
        modify (share_maps H name n c)
        when (must_restart name r p && not n.paused) (restart_node H name no_changes))
        s

  unfoldable pub restart_nodes : Reasons → Action (State H) (Unit {0})
  unfolding restart_one sort for_each healthy
  restart_nodes r s =
      (do
        refuse_if (more_than_one r) one_kind_of_spec
        for_each (restart_one r) (sort (keys s.network.nodes))
        healthy H A)
        s
