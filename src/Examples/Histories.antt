-- ===== src/Examples/Histories.antt =====
-- The properties of histories of calls, on the demo network.
use netrunner.Prelude.{false, ◌≡◌, refl, List, [], ◌∷◌, arith, eq_iff}
use netrunner.Prelude.Action.{err, is_ok, node_not_found}
use netrunner.Prelude.Dict.{lookup, insert}
use netrunner.Local.Ops.{stop_method, Changes, pause_node_method, pause_node, stop_node_process}
use netrunner.Local.Ops.Stopped.{
  Call, call, run, add, pause, resume, stop_it, stop_is_final, down_errors,
}
use netrunner.Local.Ops.Invariant.{HostLaws, IsValid, run-IsValid}
use netrunner.Examples.Demo.{
  demo, demo_state, config_named, ne_nil, running_node-IsPlaced, paused_node-IsPlaced,
}

abbrev no_change : Changes
no_change = record {
  binary_path = "";
  plugin_dir = "";
  track_subnets = "";
  chain_configs = [];
  upgrade_configs = [];
  subnet_configs = [];
}

abbrev pub calls : List Call
calls = pause "node1" ∷ resume "node2" ∷ add (config_named "") ∷ stop_it ∷ []

stop_is_final_example :
    let t = (stop_method demo demo_state).1 in
    (t.network.nodes ≡ [])
    × (run demo calls t ≡ t)
    × (is_ok (call demo (resume "node2") (run demo calls t)).0 ≡ false)
stop_is_final_example = stop_is_final demo demo_state calls (resume "node2") refl

still_up : (run demo (pause "node1" ∷ []) demo_state).network.stopping ≡ false
unfolding run call pause_node_method pause_node stop_node_process lookup insert
still_up = refl

down_errors_example :
    (call demo
      (resume "node1")
      (run demo (pause "node1" ∷ stop_it ∷ add (config_named "") ∷ []) demo_state)).0
    ≡ err (node_not_found "node1")
down_errors_example =
    down_errors demo demo_state (pause "node1" ∷ []) (add (config_named "") ∷ []) (resume "node1")
      still_up

pub demo-HostLaws : HostLaws demo
demo-HostLaws = record {
  ports = record { intn_lt = λ n w h. h; u16_lt = λ b. ground arith };
  staking = λ w made h. ground (arith, ne_nil "cert" refl, ne_nil "key" refl);
}

pub demo-IsValid : IsValid demo demo_state.network.nodes
unfolding lookup
demo-IsValid k n h =
    ground (arith, eq_iff "node1" k, eq_iff "node2" k, running_node-IsPlaced, paused_node-IsPlaced)

run-IsValid_example : IsValid demo (run demo calls demo_state).network.nodes
run-IsValid_example = run-IsValid demo demo-HostLaws calls demo_state demo-IsValid
