-- ===== src/Examples/Updates.antt =====
-- The properties of what the server's network reads of its nodes, on the demo network.
use netrunner.Prelude.{String, List, ◌<>◌, true, ◌≡◌, refl, [], ◌∷◌, some}
use netrunner.Prelude.Action.{ok, err, panic, for_each}
use netrunner.Prelude.Dict.{lookup, insert, keys, distinct}
use netrunner.Local.Types.{LocalNetwork}
use netrunner.Server.Network.{
  Kept, get_flag, text_of_flag, describe, noted, note_node, describe_nodes, prometheus_conf_common,
  generate_prometheus_conf, update_node_info,
}
use netrunner.Server.Network.Scraped.{Targets, target_lines}
use netrunner.Server.Network.Infos.{AreReadable, info_of, update_node_info_lem}
use netrunner.Server.Network.Subnets.{PChain, await_healthy}
use netrunner.Server.Network.Paused.{holding, await_healthy-paused}
use netrunner.Examples.Demo.{demo, demo_network, paused_node}
use netrunner.Examples.Servers.{demo_options}
use netrunner.Examples.Chains.{demo_api}

abbrev demo_kept : Kept demo
demo_kept = record {
  exec_path = "";
  plugin_dir = "";
  network = some demo_network;
  node_infos = [];
  options = demo_options;
  custom_chains = [];
  subnets = [];
  prometheus_conf_path = "";
  world = 0;
}

demo_readable : AreReadable demo demo_network.nodes
unfolding get_flag text_of_flag lookup
demo_readable = (("", refl), (("", refl), tt))

demo_distinct : distinct (keys demo_network.nodes) ≡ true
unfolding keys
demo_distinct = refl

update_node_info_lem_example :
    let t = (update_node_info demo demo_kept).1 in
    ((name : String) → lookup name t.node_infos ≡ info_of demo (lookup name demo_network.nodes))
    × ((ts : List String) × Targets t.node_infos ts
        × (((update_node_info demo demo_kept).0, t.world)
            ≡ demo.create_and_write t.prometheus_conf_path
                (prometheus_conf_common <> target_lines ts)
                0))
update_node_info_lem_example =
    update_node_info_lem demo demo_kept demo_network refl refl demo_distinct demo_readable

abbrev demo_p_chain : PChain demo
demo_p_chain = record {
  blockchains = λ uri w. (ok [], w);
  subnets = λ uri w. (ok [], w);
  current_supply = λ uri subnet w. (ok 0, w);
  platform_chain_id = "platform";
  empty_id = "empty";
}

abbrev paused_network : LocalNetwork demo
paused_network = record demo_network { nodes = ("node2", paused_node) ∷ [] }

paused_updated : (update_node_info demo (holding demo paused_network demo_kept)).0 ≡ ok tt
unfolding update_node_info describe_nodes note_node get_flag text_of_flag noted describe
    generate_prometheus_conf for_each lookup insert
paused_updated = refl

await_healthy-paused_example :
    (await_healthy demo demo_api demo_p_chain (holding demo paused_network demo_kept)).0 ≡ err panic
await_healthy-paused_example =
    await_healthy-paused demo demo_api demo_p_chain demo_kept paused_network refl refl
      paused_updated
