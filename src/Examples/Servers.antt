-- ===== src/Examples/Servers.antt =====
-- The properties of the server, on a runner whose network is a counter of the calls on it.
use netrunner.Prelude.{
  some, is_some, ℕ, ◌+◌, true, false, ◌≡◌, refl, List, [], ◌∷◌, none, arith, if◌then◌else◌,
}
use netrunner.Prelude.Action.{ok, err, is_ok, already_bootstrapped, not_bootstrapped}
use netrunner.Server.Types.{ClusterInfo, Options, NodeInfo}
use netrunner.Server.Runner.{Runner, Live}
use netrunner.Server.State.{Server}
use netrunner.Server.Lifecycle
use netrunner.Server.Lifecycle.{StartRequest}
use netrunner.Server.Requests.{Request, serve, serve_all}
use netrunner.Server.Requests.Guards.{serve_refuses, starts}
use netrunner.Server.Requests.Consistent.{IsConsistent}
use netrunner.Server.Requests.Invariant.{serve_all-IsConsistent}
use netrunner.Server.Requests.Bootstrap.{IsServing, start-all_or_nothing}
use netrunner.Server.Waiting.{Answer, Round, wait_for_healthy, look, select}
use netrunner.Server.Waiting.Outcome.{wait_ends, wait_sound, IsHealthyCopy}
use netrunner.Config.{NetworkConfig}
use netrunner.Prelude.Decimal.{decimal}
use netrunner.Prelude.Dict.{lookup, put_all}
use netrunner.Local.Names.Search.{node_name}
use netrunner.Server.Configs.{create_config, node_configs_from, node_config, write_all, flags_in}
use netrunner.Server.Configs.Outcome.{create_config-IsNumbered, create_config-chains, IsNumbered}
use netrunner.Examples.Demo.{network_config, staked_config, demo}

abbrev counted : Live ℕ ℕ → Live ℕ ℕ
counted l = record l { network = l.network + 1 }

abbrev node_info : NodeInfo
node_info = record {
  name = "node1";
  uri = "http://127.0.0.1:9650";
  id = "NodeID-1";
  exec_path = "luxd";
  log_dir = "logs";
  db_dir = "db";
  config = "";
  plugin_dir = "";
  whitelisted_subnets = "";
  paused = false;
}

abbrev demo_runner : Runner demo
demo_runner = record {
  Network = ℕ;
  new_local_network = λ options w. (ok 0, w);
  start = λ l. (ok tt, counted l);
  load_snapshot = λ name l. (ok tt, counted l);
  await_healthy = λ l. (ok tt, counted l);
  update_node_info = λ l. (ok tt, counted l);
  create_chains = λ specs l. (ok [], counted l);
  create_subnets = λ specs l. (ok [], counted l);
  transform_subnets = λ specs l. (ok ([], []), counted l);
  add_validators = λ specs l. (ok tt, counted l);
  remove_validators = λ specs l. (ok tt, counted l);
  add_node = λ config l. (ok tt, counted l);
  remove_node = λ name l. (ok tt, counted l);
  restart_node = λ name changes l. (ok tt, counted l);
  pause_node = λ name l. (ok tt, counted l);
  resume_node = λ name l. (ok tt, counted l);
  attach_peer = λ name l. (ok "peer", counted l);
  send_message = λ name peer bytes op l. (ok true, counted l);
  save_snapshot = λ name l. (ok "path", counted l);
  remove_snapshot = λ name l. (ok tt, counted l);
  get_snapshot_names = λ l. (ok [], counted l);
  stop = λ n w. w;
  node_infos = λ n. ("node1", node_info) ∷ [];
  custom_chains = λ n. [];
  subnets = λ n. [];
  plugin_dir = λ n. "plugins";
  json_copy = λ i w. (ok i, w);
}

abbrev new_server : Server demo demo_runner
new_server = record {
  redirect_nodes_output = false;
  snapshots_dir = "snapshots";
  cluster_info = none;
  network = none;
  async_error = none;
  world = 0;
}

abbrev start_request : StartRequest
start_request = record {
  exec_path = "luxd";
  num_nodes = none;
  whitelisted_subnets = "";
  root_data_dir = "";
  global_node_config = "";
  custom_node_configs = [];
  plugin_dir = "";
  blockchain_specs = [];
  chain_configs = [];
  upgrade_configs = [];
  subnet_configs = [];
  reassign_ports_if_used = false;
  dynamic_ports = false;
}

serve_refuses_example : serve demo demo_runner (Request.remove_node "node1") new_server ≡ (
  err (if starts (Request.remove_node "node1") then already_bootstrapped else not_bootstrapped),
  new_server,
)
serve_refuses_example =
    serve_refuses demo demo_runner (Request.remove_node "node1") new_server refl refl

new_server-IsConsistent : IsConsistent {H = demo} {R = demo_runner} new_server
new_server-IsConsistent = record { described = λ h. ground arith; down = λ h. refl }

abbrev requests : List Request
requests =
    Request.start start_request ∷ Request.pause_node "node1" ∷ Request.stop ∷ Request.health ∷ []

serve_all-IsConsistent_example : IsConsistent (serve_all demo demo_runner requests new_server)
serve_all-IsConsistent_example =
    serve_all-IsConsistent demo demo_runner requests new_server new_server-IsConsistent

start-all_or_nothing_example :
    let t = Lifecycle.start demo demo_runner start_request new_server in
    (is_ok t.0 ≡ true → IsServing t.1) × (is_ok t.0 ≡ false → t.1.network ≡ none)
start-all_or_nothing_example =
    start-all_or_nothing demo demo_runner start_request new_server (λ i w. refl) refl

abbrev healthy_cluster : ClusterInfo
healthy_cluster = record (Lifecycle.fresh_cluster 1 "root") { custom_chains_healthy = true }

-- Another request brings the network up after the first round; the second finds it healthy.
abbrev rounds : List (Round demo demo_runner)
rounds =
    record {
      is_done = false;
      takes_done = false;
      others = λ s. record s { cluster_info = some healthy_cluster };
    }
    ∷ record { is_done = true; takes_done = false; others = λ s. s }
    ∷ []

abbrev waiting_server : Server demo demo_runner
waiting_server = record new_server {
  network = some 0;
  cluster_info = some (Lifecycle.fresh_cluster 1 "root");
}

wait_ends_example : is_some (wait_for_healthy demo demo_runner rounds waiting_server).0 ≡ true
wait_ends_example = wait_ends demo demo_runner rounds waiting_server refl

abbrev healthy_answer : Answer
healthy_answer = record { cluster = some healthy_cluster; error = none }

waited : (wait_for_healthy demo demo_runner rounds waiting_server).0 ≡ some healthy_answer
unfolding wait_for_healthy look select
waited = refl

wait_sound_example : IsHealthyCopy demo_runner healthy_answer
wait_sound_example = wait_sound demo demo_runner rounds waiting_server healthy_answer waited refl

abbrev pub demo_options : Options
demo_options = Lifecycle.start_options false "snapshots" "root" start_request

abbrev made_config : NetworkConfig
made_config = record network_config {
  flags = none;
  node_configs =
      record (staked_config "node1") {
        flags = some [];
        binary_path = "luxd";
        redirect_stdout = false;
        redirect_stderr = false;
      }
      ∷ [];
}

created : create_config demo demo_options network_config ≡ ok made_config
unfolding create_config node_configs_from node_config write_all flags_in lookup put_all
    Lifecycle.start_options node_name decimal
created = refl

create_config-IsNumbered_example :
    IsNumbered demo_options.exec_path 0 network_config.node_configs made_config.node_configs
create_config-IsNumbered_example =
    create_config-IsNumbered demo demo_options network_config made_config created

create_config-chains_example : demo_options.chain_configs ≡ []
create_config-chains_example =
    create_config-chains demo demo_options network_config made_config created (refl, tt) (λ e. cc)
