-- ===== src/Examples/Nodes.antt =====
-- The properties of the operations on nodes, on the demo network.
use mathlib.Core.Option
use netrunner.Prelude.{
  ◌<◌, String, true, false, ◌≡◌, ◌≢◌, refl, ◌⊎◌, [], none, some, arith, str_eq, if◌then◌else◌,
}
use netrunner.Prelude.Action.{Error, ok, err, is_ok, node_not_found, already_paused}
use netrunner.Prelude.Dict
use netrunner.Prelude.Dict.{Dict, lookup, has, insert, put_all, add_missing}
use netrunner.Config.{NodeConfig}
use netrunner.Local.Types.{LocalNode}
use netrunner.Local.Ports.{get_port, configured_port, given_port, reassign, last_check}
use netrunner.Local.Entries.{get_config_entry, add_network_flags}
use netrunner.Local.Files.{make_node_dir, write_files}
use netrunner.Local.Args.{build_args}
use netrunner.Local.Names.{set_node_name, assigned, is_paused_node}
use netrunner.Local.Names.Search.{node_name}
use netrunner.Local.Names.Unique.{set_node_name-generated}
use netrunner.Local.Add.{
  add_node, complete_config, with_defaults, with_staking_files, with_signing_key, get_node_sem_ver,
  read_config_file, launch, join_beacons,
}
use netrunner.Local.Add.Cases.{add_node_cases, SameNetwork, IsLaunched, Added}
use netrunner.Local.Ops.{
  remove_node, pause_node, resume_node, restart_node, Changes, resumed_config, restarted_config,
  keep_place, stop_node_process,
}
use netrunner.Local.Ops.Steps.{remove_node_lem, pause_node_lem, exit_result, if_stops}
use netrunner.Local.Ops.Resume.{PlaceKeysDistinct, SamePlace, without_maps, resume_node-SamePlace}
use netrunner.Local.Ops.Restart.{restart_node-SamePlace}
use netrunner.Local.Choice.{choose_node}
use netrunner.Local.Choice.Least.{choose_node_lem, Contains, NoneBelow}
use netrunner.Examples.Demo.{
  demo, demo_keys, demo_state, demo_network, running_node, paused_node, config_named,
  paused_node-IsPlaced, running_node-IsPlaced,
}

abbrev named : NodeConfig
named = record (config_named "node3") { name = "node3" }

set_node_name-generated_example :
    (c' : NodeConfig) × ((set_node_name demo (config_named "") demo_state).0 ≡ ok c')
    × (has c'.name demo_state.network.nodes ≡ false)
    × (c'.name
        ≡ node_name (set_node_name demo (config_named "") demo_state).1.network.next_node_suffix)
set_node_name-generated_example =
    set_node_name-generated demo (config_named "") demo_state refl (ground arith)

add_node_cases_example :
    ((e : Error) × ((add_node demo named demo_state).0 ≡ err e)
      × SameNetwork demo_state.network (add_node demo named demo_state).1.network)
    ⊎ ((n : LocalNode demo) × IsLaunched demo demo_state.network n
        × Added demo_state.network n (add_node demo named demo_state).1.network
        × (((add_node demo named demo_state).0 ≡ ok n)
            ⊎ (is_ok (add_node demo named demo_state).0 ≡ false)))
add_node_cases_example = add_node_cases demo named demo_state

remove_node_lem_example :
    ((k : String)
      → lookup k (remove_node demo "node1" demo_state).1.network.nodes
        ≡ (if str_eq "node1" k then none else lookup k demo_state.network.nodes))
    × ((remove_node demo "node1" demo_state).0 ≡ (elim (lookup "node1" demo_state.network.nodes) [
      | none ↦ err (node_not_found "node1")
      | some n ↦ if n.paused then ok tt else exit_result demo n demo_state.world
    ]))
remove_node_lem_example = remove_node_lem demo "node1" demo_state

pause_node_lem_example :
    ((k : String)
      → lookup k (pause_node demo "node1" demo_state).1.network.nodes ≡ (
          if str_eq "node1" k
          then Option.map (if_stops demo demo_state.world) (lookup "node1" demo_state.network.nodes)
          else lookup k demo_state.network.nodes))
    × ((pause_node demo "node1" demo_state).0 ≡ (elim (lookup "node1" demo_state.network.nodes) [
      | none ↦ err (node_not_found "node1")
      | some n ↦ if n.paused then err already_paused else exit_result demo n demo_state.world
    ]))
pause_node_lem_example = pause_node_lem demo "node1" demo_state

abbrev no_changes : Changes
no_changes = record {
  binary_path = "";
  plugin_dir = "";
  track_subnets = "";
  chain_configs = [];
  upgrade_configs = [];
  subnet_configs = [];
}

demo_keys_distinct : PlaceKeysDistinct demo_keys
demo_keys_distinct = refl

paused_node_found : lookup "node2" demo_state.network.nodes ≡ some paused_node
unfolding lookup
paused_node_found = refl

running_node_found : lookup "node1" demo_state.network.nodes ≡ some running_node
unfolding lookup
running_node_found = refl

resume_node_ran : (resume_node demo "node2" demo_state).0 ≡ ok tt
unfolding resume_node resumed_config keep_place add_node complete_config with_defaults
    with_staking_files with_signing_key add_network_flags add_missing set_node_name assigned launch
    make_node_dir read_config_file get_node_sem_ver build_args get_config_entry get_port
    configured_port given_port reassign last_check write_files join_beacons is_paused_node lookup
    insert
resume_node_ran = refl

restart_node_ran : (restart_node demo "node1" no_changes demo_state).0 ≡ ok tt
unfolding restart_node restarted_config remove_node Dict.remove put_all stop_node_process keep_place
    add_node complete_config with_defaults with_staking_files with_signing_key add_network_flags
    add_missing set_node_name assigned launch make_node_dir read_config_file get_node_sem_ver
    build_args get_config_entry get_port configured_port given_port reassign last_check write_files
    join_beacons is_paused_node lookup insert
restart_node_ran = refl

resume_node-SamePlace_example :
    let t = (resume_node demo "node2" demo_state).1 in
    (paused_node.paused ≡ true)
    × ((m : LocalNode demo) × (lookup "node2" t.network.nodes ≡ some m)
        × SamePlace demo paused_node m
        × (m.paused ≡ false))
    × ((k : String)
        → k ≢ "node2"
        → without_maps (lookup k t.network.nodes)
          ≡ without_maps (lookup k demo_state.network.nodes))
resume_node-SamePlace_example =
    resume_node-SamePlace demo demo_state paused_node demo_keys_distinct refl paused_node_found
      paused_node-IsPlaced resume_node_ran

restart_node-SamePlace_example :
    let t = (restart_node demo "node1" no_changes demo_state).1 in
    ((m : LocalNode demo) × (lookup "node1" t.network.nodes ≡ some m)
      × SamePlace demo running_node m
      × (m.paused ≡ false))
    × ((k : String)
        → k ≢ "node1"
        → without_maps (lookup k t.network.nodes)
          ≡ without_maps (lookup k demo_state.network.nodes))
restart_node-SamePlace_example =
    restart_node-SamePlace demo demo_state running_node no_changes demo_keys_distinct refl
      running_node_found running_node-IsPlaced restart_node_ran

choose_node_lem_example :
    ((choose_node demo demo_network.nodes ≡ none) × NoneBelow 65535 demo_network.nodes)
    ⊎ ((m : LocalNode demo) × (choose_node demo demo_network.nodes ≡ some m)
        × Contains m demo_network.nodes
        × (m.paused ≡ false)
        × (m.api_port < 65535)
        × NoneBelow m.api_port demo_network.nodes)
choose_node_lem_example = choose_node_lem demo demo_network.nodes
