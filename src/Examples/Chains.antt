-- ===== src/Examples/Chains.antt =====
-- The properties of subnets, blockchains and validators, on the demo network.
use netrunner.Prelude.{
  ℕ, ◌+◌, ◌<◌, ◌&&◌, ◌||◌, not, String, true, false, ◌≡◌, ◌≢◌, refl, List, [], ◌∷◌, none, some,
  if◌then◌else◌,
}
use netrunner.Prelude.Action.{ok, external, for_each}
use netrunner.Prelude.Dict.{lookup, insert, remove, contains}
use netrunner.Local.Ops.{restart_node}
use netrunner.Local.Types.{LocalNode, State}
use netrunner.Server.Types.{PermissionlessValidatorSpec}
use netrunner.Local.Chains.{Api, SubnetSpec}
use netrunner.Local.Chains.Healthy.{healthy, to_check, wait_all, look}
use netrunner.Local.Chains.Healthy.Outcome.{FoundWell, healthy_sound}
use netrunner.Local.Chains.Track.{Reasons, restart_one, tracked_before, no_changes}
use netrunner.Local.Chains.Track.Tracked.{
  validates, is_removed, participates, is_subnet, is_affected, tracking_ids, restart_one_lem,
}
use netrunner.Local.Chains.ConfigFiles.{
  set_subnet_config_files, set_one_subnet, change_config, with_subnet_config, put_text,
}
use netrunner.Local.Chains.ConfigFiles.Written.{subnet_file, specified, set_subnet_config_files_lem}
use netrunner.Local.Chains.Validators.{start_of, end_of, seconds_of, unix}
use netrunner.Local.Chains.Validators.Times.{end_of_lem}
use netrunner.Examples.Demo.{demo, demo_state, demo_network, running_node}

abbrev pub demo_api : Api demo
demo_api = record {
  Wallet = ℕ;
  new_wallet = λ uri subnets w. (ok 0, w);
  reload = λ uri wallet. wallet;
  id_from_string = λ text. some text;
  primary_network = "primary";
  min_validator_stake = 2000;
  bls_key = λ bytes. some bytes;
  validators = λ uri subnet w. (ok [], w);
  add_primary = λ wallet staker key w. (ok "tx", w);
  add_permissionless = λ wallet staker subnet asset w. (ok "tx", w);
  add_subnet_validator = λ wallet staker subnet w. (ok "tx", w);
  remove_subnet_validator = λ wallet id subnet w. (ok "tx", w);
  create_subnet = λ wallet w. (ok "subnet", w);
  create_asset = λ wallet name symbol supply w. (ok "asset", w);
  export_asset = λ wallet asset amount w. (ok tt, w);
  import_assets = λ wallet w. (ok tt, w);
  transform_subnet = λ wallet subnet asset spec w. (ok "tx", w);
  create_chain_tx = λ wallet subnet genesis vm name w. (ok "chain", w);
  issue_chain_tx = λ wallet tx w. (ok tx, w);
  load_vms = λ uri w. (ok [], w);
  alias_chain = λ uri chain name w. (ok tt, w);
  is_running = λ p w. (true, w);
  is_healthy = λ uri w. (true, w);
  turns = λ w. "node1" ∷ [];
  wait_rounds = 3;
  wait_error = external "context";
}

healthy_ran : (healthy demo demo_api demo_state).0 ≡ ok tt
unfolding healthy to_check wait_all look lookup remove
healthy_ran = refl

healthy_sound_example :
    (false ≡ false)
    × ((k : String) (n : LocalNode demo)
        → lookup k demo_state.network.nodes ≡ some n
        → n.paused ≡ false
        → FoundWell demo demo_api n)
healthy_sound_example = healthy_sound demo demo_api demo_state healthy_ran

abbrev new_subnet : List (String × SubnetSpec)
new_subnet = ("subnet", record { participants = "node1" ∷ []; subnet_config = some "{}" }) ∷ []

abbrev reasons : Reasons
reasons = record {
  subnets = some new_subnet;
  validators = none;
  removals = none;
  config_updates = [];
}

-- a running node with flags
abbrev flagged_node : LocalNode demo
flagged_node = record running_node { config = record running_node.config { flags = some [] } }

abbrev flagged_state : State demo
flagged_state = record demo_state {
  network = record demo_network { nodes = ("node1", flagged_node) ∷ [] };
}

flagged_found : lookup "node1" flagged_state.network.nodes ≡ some flagged_node
unfolding lookup
flagged_found = refl

flagged_tracks : tracked_before (lookup "track-subnets" []) ≡ ok []
unfolding lookup tracked_before
flagged_tracks = refl

restart_one_lem_example :
    (ids : List String) × ((id : String)
      → contains id ids ≡ (
          ((contains id [] || validates "node1" (is_subnet id) [])
            && not (is_removed "node1" (is_subnet id) []))
          || participates "node1" (is_subnet id) new_subnet))
    × (restart_one demo demo_api reasons "node1" flagged_state ≡ (
        if is_affected "node1" reasons && not false
        then restart_node demo "node1" no_changes
            (tracking_ids demo "node1" flagged_node [] ids flagged_state)
        else (ok tt, tracking_ids demo "node1" flagged_node [] ids flagged_state)))
restart_one_lem_example =
    restart_one_lem demo demo_api reasons "node1" flagged_state flagged_node [] [] flagged_found
      refl flagged_tracks

-- a state in which the node has a map of subnet configurations
abbrev mapped_state : State demo
mapped_state = record demo_state {
  network = record demo_network {
    nodes =
        (
          "node1",
          record running_node {
            config = record running_node.config { subnet_config_files = some [] };
          },
        )
        ∷ [];
  };
}

set_files_ran : (set_subnet_config_files demo new_subnet mapped_state).0 ≡ ok tt
unfolding set_subnet_config_files set_one_subnet change_config with_subnet_config put_text for_each
    lookup insert
set_files_ran = refl

set_subnet_config_files_lem_example :
    subnet_file (set_subnet_config_files demo new_subnet mapped_state).1 "node1" "subnet"
    ≡ specified "node1" "subnet" new_subnet (subnet_file mapped_state "node1" "subnet")
set_subnet_config_files_lem_example =
    set_subnet_config_files_lem demo new_subnet "node1" "subnet" mapped_state set_files_ran

abbrev timed : PermissionlessValidatorSpec
timed = record {
  subnet_id = "subnet";
  asset_id = "asset";
  node_name = "node1";
  staked_amount = 2000;
  start_time = none;
  stake_duration = 3600000000000;
}

end_of_lem_example :
    ((t : ℕ)
      → timed.start_time ≡ some t
      → timed.stake_duration ≢ 0
      → t + seconds_of 3600000000000 < 18446744073709551616
      → end_of timed none ≡ start_of timed 1000 + seconds_of 3600000000000)
    × (timed.start_time ≡ none
        → timed.stake_duration ≢ 0
        → seconds_of 3600000000000 < 60000000000
        → 9223372036854775808 < end_of timed none)
    × (timed.stake_duration ≡ 0 → end_of timed none ≡ unix none)
end_of_lem_example = end_of_lem timed 1000 none
