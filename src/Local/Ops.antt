-- ===== src/Local/Ops.antt =====
-- local/network.go: the operations on the nodes of a running network.
pub mod Steps
pub mod Stopped
pub mod Resume
pub mod Invariant
pub mod Restart
pub mod Presence
use netrunner.Prelude.{
  ℕ, String, Bool, true, false, not, List, [], ◌∷◌, Option, none, some, str_eq, ◌==◌, if◌then◌else◌,
}
use netrunner.Prelude.Action.{
  Action, Result, ok, err, pure, raise, or_raise, modify, refuse_if, when, network_stopped,
  node_not_found, node_not_in_network, exited, already_paused, not_paused, ◌>>=◌, ◌>>◌,
}
use netrunner.Prelude.Dict.{Dict, lookup, insert, remove, keys, put_all}
use netrunner.Host.{Host, Value}
use netrunner.Config.{NodeConfig, or_empty}
use netrunner.Local.Types.{LocalNode, LocalNetwork, State}
use netrunner.Local.Add.{add_node, on_world, put_node}

-- the optional changes of RestartNode
pub record Changes : Type 0 where
  pub binary_path : String
  pub plugin_dir : String
  pub track_subnets : String
  pub chain_configs : Dict String
  pub upgrade_configs : Dict String
  pub subnet_configs : Dict String

module _ (H : Host) where
  open H use {World, remove_beacon, stop_process}

  -- `exitCode := node.process.Stop(ctx); exitCode != 0`; the code is an int in two's complement
  unfoldable pub stop_node_process : LocalNode H → Action (State H) (Unit {0})
  stop_node_process n s =
      let stopped = stop_process n.process s.world in
      (
        if stopped.0 == 0 then ok tt else err (exited n.name stopped.0),
        record s { world = stopped.1 },
      )

  abbrev pub drop_node : LocalNode H → String → State H → State H
  drop_node n name s = record s {
    network = record s.network {
      bootstraps = remove_beacon n.node_id s.network.bootstraps;
      nodes = remove name s.network.nodes;
    };
  }

  -- removeNode
  unfoldable pub remove_node : String → Action (State H) (Unit {0})
  unfolding stop_node_process
  remove_node name s =
      (do
        n ← or_raise (lookup name s.network.nodes) (node_not_found name)
        modify (drop_node n name)
        when (not n.paused) (stop_node_process n))
        s

  -- pauseNode
  unfoldable pub pause_node : String → Action (State H) (Unit {0})
  unfolding stop_node_process
  pause_node name s =
      (do
        n ← or_raise (lookup name s.network.nodes) (node_not_found name)
        refuse_if n.paused already_paused
        stop_node_process n
        modify (λ t. record t {
          network = record t.network {
            nodes = insert name (record n { paused = true }) t.network.nodes;
          };
        }))
        s

  -- The flags that keep a node's directories and ports.
  unfoldable pub keep_place : LocalNode H → Dict Value → Dict Value
  keep_place n flags = insert H.keys.staking_port (Value.int n.p2p_port) (
      insert H.keys.http_port (Value.int n.api_port) (
        insert H.keys.logs_dir (Value.text n.logs_dir) (
          insert H.keys.db_path (Value.text n.db_dir)
            (insert H.keys.data_dir (Value.text n.data_dir) flags))))

  abbrev pub given_flag : String → String → Dict Value → Dict Value
  given_flag key text flags = if str_eq text "" then flags else insert key (Value.text text) flags

  -- The maps of `node.GetConfig()` are those of the node itself: what is written to the copy is
  -- written to the node's configuration too. The binary path is a field of the copy only. That
  -- other nodes may have been given the same map is left out: nothing here is said of their maps.
  abbrev pub share_maps : String → LocalNode H → NodeConfig → State H → State H
  share_maps name n c s = record s {
    network = record s.network {
      nodes =
          insert name (record n { config = record c { binary_path = n.config.binary_path } })
            s.network.nodes;
    };
  }

  unfoldable pub resumed_config : LocalNode H → NodeConfig
  unfolding keep_place
  resumed_config n = record n.config { flags = some (keep_place n (or_empty n.config.flags)) }

  -- resumeNode
  unfoldable pub resume_node : String → Action (State H) (Unit {0})
  unfolding resumed_config
  resume_node name s =
      (do
        n ← or_raise (lookup name s.network.nodes) (node_not_found name)
        refuse_if (not n.paused) not_paused
        modify (share_maps name n (resumed_config n))
        add_node H (resumed_config n)
        pure tt)
        s

  unfoldable pub restarted_config : LocalNode H → Changes → NodeConfig
  unfolding keep_place
  restarted_config n ch = record n.config {
    binary_path = if str_eq ch.binary_path "" then n.config.binary_path else ch.binary_path;
    flags = some (
        keep_place n (
          given_flag H.keys.track_subnets ch.track_subnets
            (given_flag H.keys.plugin_dir ch.plugin_dir (or_empty n.config.flags))));
    chain_config_files = some (put_all ch.chain_configs (or_empty n.config.chain_config_files));
    upgrade_config_files =
        some (put_all ch.upgrade_configs (or_empty n.config.upgrade_config_files));
    subnet_config_files = some (put_all ch.subnet_configs (or_empty n.config.subnet_config_files));
  }

  -- restartNode
  unfoldable pub restart_node : String → Changes → Action (State H) (Unit {0})
  unfolding restarted_config
  restart_node name ch s =
      (do
        n ← or_raise (lookup name s.network.nodes) (node_not_found name)
        modify (share_maps name n (restarted_config n ch))
        when (not n.paused) (remove_node name)
        add_node H (restarted_config n ch)
        pure tt)
        s

  -- wrappers.Errs keeps the first error
  abbrev pub first_error : Result (Unit {0}) → Result (Unit {0}) → Result (Unit {0})
  first_error (ok _) r = r
  first_error (err e) r = err e

  unfoldable pub stop_all : List String → Action (State H) (Unit {0})
  unfolding remove_node
  stop_all [] s = (ok tt, s)
  stop_all (name ∷ names) s = (
    first_error (remove_node name s).0 (stop_all names (remove_node name s).1).0,
    (stop_all names (remove_node name s).1).1,
  )

  -- stop: every node of the network, whatever fails
  unfoldable pub stop : Action (State H) (Unit {0})
  unfolding stop_all
  stop s = stop_all (keys s.network.nodes) s

  abbrev pub close_stop_channel : State H → State H
  close_stop_channel s = record s { network = record s.network { stopping = true } }

  -- The exported methods: the lock is held, and a network that is stopping refuses.
  abbrev pub unless_stopping : {A : Type 0} → Action (State H) A → Action (State H) A
  unless_stopping m s = if s.network.stopping then (err network_stopped, s) else m s

  unfoldable pub add_node_method : NodeConfig → Action (State H) (LocalNode H)
  add_node_method c = unless_stopping (add_node H c)

  unfoldable pub remove_node_method : String → Action (State H) (Unit {0})
  remove_node_method name = unless_stopping (remove_node name)

  unfoldable pub pause_node_method : String → Action (State H) (Unit {0})
  pause_node_method name = unless_stopping (pause_node name)

  unfoldable pub get_node : String → Action (State H) (LocalNode H)
  get_node name s = unless_stopping (or_raise (lookup name s.network.nodes) node_not_in_network) s

  unfoldable pub get_node_names : Action (State H) (List String)
  get_node_names s = unless_stopping (pure (keys s.network.nodes)) s

  unfoldable pub get_all_nodes : Action (State H) (Dict (LocalNode H))
  get_all_nodes s = unless_stopping (pure s.network.nodes) s

  -- Stop: `stopOnce` runs the body once; any other call returns ErrStopped
  unfoldable pub stop_method : Action (State H) (Unit {0})
  unfolding stop
  stop_method s = unless_stopping (λ t. stop (close_stop_channel t)) s
