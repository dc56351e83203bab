-- ===== src/Examples/Loading.antt =====
-- The properties of loading a configuration, of the default configuration, and of the abstract view
-- of a network, on the demo network.
use netrunner.Prelude.{
  ℕ, ◌<◌, ◌≤◌, ◌%◌, false, ◌≡◌, ◌≢◌, ◌⊎◌, refl, [], ◌∷◌, some, arith, length, take, All,
}
use netrunner.Prelude.Action.{Error, ok, err}
use netrunner.Prelude.Dict.{lookup}
use netrunner.Host.{Value}
use netrunner.Config.{NodeConfig, NetworkConfig}
use netrunner.Config.Network
use netrunner.Local.Types.{State}
use netrunner.Local.Ports.{u16}
use netrunner.Local.Ops.Invariant.{IsValid}
use netrunner.Local.Ops.Presence.{AllowedRun}
use netrunner.Local.Ops.Presence.Refines.{run-AllowedRun}
use netrunner.Local.Load.{load_config}
use netrunner.Local.Load.Outcome.{AllRunning, Stands}
use netrunner.Local.Load.Whole.{load_config_cases}
use netrunner.Local.Defaults.{
  new_default_config_n_nodes, new_default_config, missing_nodes, extra_nodes, extra_node,
  reference_port,
}
use netrunner.Local.Defaults.Many.{
  Extends, default_config_n_nodes_lem, given_in, extra_node-ports-ne,
}
use netrunner.Examples.Demo.{demo, demo_state, demo_network, network_config, staked_config}
use netrunner.Examples.Histories.{demo-HostLaws, demo-IsValid, calls}

run-AllowedRun_example : AllowedRun demo calls demo_state
run-AllowedRun_example = run-AllowedRun demo demo-HostLaws calls demo_state demo-IsValid

abbrev empty_state : State demo
empty_state = record demo_state { network = record demo_network { nodes = [] } }

load_config_cases_example :
    let t = (load_config demo network_config empty_state).1.network in
    (((load_config demo network_config empty_state).0 ≡ ok tt)
      × IsValid demo t.nodes
      × AllRunning t.nodes
      × (length t.nodes ≡ 1)
      × All (Stands demo t) network_config.node_configs
      × (Network.network_id_from_genesis demo "genesis" ≡ ok t.network_id)
      × (t.reassign_ports_if_used ≡ false))
    ⊎ ((e : Error) × ((load_config demo network_config empty_state).0 ≡ err e) × (t.nodes ≡ []))
load_config_cases_example = load_config_cases demo demo-HostLaws network_config empty_state refl

-- A default configuration of one node with ports.
abbrev ported : NodeConfig
ported = record (staked_config "") {
  flags = some (("http-port", Value.float 9650) ∷ ("staking-port", Value.float 9651) ∷ []);
}

abbrev one_node : NetworkConfig
one_node = record network_config { node_configs = ported ∷ [] }

abbrev second : NodeConfig
second = record ported {
  staking_cert = "cert";
  staking_key = "key";
  flags = some (("http-port", Value.int 9652) ∷ ("staking-port", Value.int 9653) ∷ []);
}

abbrev two_nodes : NetworkConfig
two_nodes = record one_node { node_configs = ported ∷ second ∷ [] }

two_nodes_made : (new_default_config_n_nodes demo one_node "luxd" 2 0).0 ≡ ok two_nodes
unfolding new_default_config_n_nodes new_default_config missing_nodes extra_nodes extra_node
    reference_port lookup
two_nodes_made = refl

default_config_n_nodes_lem_example :
    (length two_nodes.node_configs ≡ 2)
    × (two_nodes ≡ record one_node { binary_path = "luxd"; node_configs = two_nodes.node_configs })
    × (2 ≤ 1 → two_nodes.node_configs ≡ take 2 one_node.node_configs)
    × (1 < 2 → Extends demo one_node.node_configs two_nodes.node_configs)
default_config_n_nodes_lem_example =
    default_config_n_nodes_lem demo one_node two_nodes "luxd" 2 0 two_nodes_made

abbrev first_round : ℕ
first_round = 0

abbrev next_round : ℕ
next_round = 1

extra_node-ports-ne_example :
    let c = extra_node demo ported 9650 9651 first_round ("cert", "key") in
    let d = extra_node demo ported 9650 9651 next_round ("cert", "key") in
    (given_in demo "http-port" c ≡ given_in demo "http-port" d → first_round ≡ next_round)
    × (given_in demo "http-port" c ≢ some (u16 9650))
    × (9650 % 2 ≢ 9651 % 2 → given_in demo "http-port" c ≢ given_in demo "staking-port" d)
extra_node-ports-ne_example =
    extra_node-ports-ne demo ported 9650 9651 0 1 ("cert", "key") ("cert", "key") refl (omega arith)
      (omega arith)
