-- ===== src/Local/Add/Realised.antt =====
-- A node that was started, compared with the configuration that was given for it.
use netrunner.Prelude.{ℕ, String, false, ◌≡◌, ◌≢◌, some, arith, or_else}
use netrunner.Prelude.Action.{ok, after}
use netrunner.Prelude.Dict.{Dict, lookup}
use netrunner.Host.{Host, Value}
use netrunner.Config.{NodeConfig, or_empty}
use netrunner.Local.Types.{LocalNode, LocalNetwork, State}
use netrunner.Local.Entries.{get_config_entry_lem}
use netrunner.Local.Ports.{get_port, given_port}
use netrunner.Local.Ports.Bounds.{get_port-given}
use netrunner.Local.Names.Unique.{set_node_name_sound}
use netrunner.Local.Add.{complete_config, on_world}
use netrunner.Local.Add.Completed.{complete_config-IsCompleted, launch-IsMade}
use netrunner.Local.Add.Cases.{Started, launch_sound}

-- The port that the flags give under `key`, if they give one, is `port`.
abbrev pub HasPort : (H : Host) → String → Dict Value → ℕ → Type 0
HasPort H key flags port =
    (v : Value) (q : ℕ) → lookup key flags ≡ some v → given_port H v ≡ some q → port ≡ q

-- `n` runs as `c` says, in the network `ln`.
pub record Realises (H : Host) (ln : LocalNetwork H) (c : NodeConfig) (n : LocalNode H)
    : Type 0 where
  pub live : n.paused ≡ false
  pub named : c.name ≢ "" → n.name ≡ c.name
  pub marked : n.config.is_beacon ≡ c.is_beacon
  pub staked :
      c.staking_key ≢ ""
      → c.staking_cert ≢ ""
      → (n.config.staking_key ≡ c.staking_key) × (n.config.staking_cert ≡ c.staking_cert)
  pub identified : H.node_id_of n.config.staking_key n.config.staking_cert ≡ some n.node_id
  pub flags :
      (k : String)
      → lookup k (or_empty n.config.flags)
        ≡ or_else (lookup k (or_empty c.flags)) (lookup k (or_empty ln.flags))
  pub api_port :
      ln.reassign_ports_if_used ≡ false → HasPort H H.keys.http_port (or_empty c.flags) n.api_port
  pub p2p_port :
      ln.reassign_ports_if_used ≡ false
      → HasPort H H.keys.staking_port (or_empty c.flags) n.p2p_port
  pub db_dir :
      (dir : String)
      → lookup H.keys.db_path (or_empty c.flags) ≡ some (Value.text dir)
      → n.db_dir ≡ dir

port_of_given :
    (H : Host) (flags file : Dict Value) (key : String) (w : H.World) (r : ℕ)
    → (get_port H flags file key false w).0 ≡ ok r
    → HasPort H key flags r
port_of_given H flags file key w r found v q there given =
    ground (arith, get_port-given H flags file key w v q there given)

HasPort-or_else :
    (H : Host) (key : String) (own more all : Dict Value) (port : ℕ)
    → lookup key all ≡ or_else (lookup key own) (lookup key more)
    → HasPort H key all port
    → HasPort H key own port
HasPort-or_else H key own more all port same has v q there given = has v q (ground arith) given

pub Started-Realises :
    (H : Host) (c : NodeConfig) (s : State H) (n : LocalNode H)
    → Started H c s n
    → Realises H s.network c n
Started-Realises H c s n d =
    let s1 = after (on_world H (complete_config H s.network c)) s in
    let filled = complete_config-IsCompleted H s.network c d.completed s.world d.completes in
    let named = set_node_name_sound H d.completed d.named s1 d.names in
    let shape = launch_sound H s.network d.named d.launches.0 n d.launches.1 in
    let is_made = launch-IsMade H s.network d.named d.launches.0 n d.launches.1 in
    let built = is_made.built in
    let flags_of = or_empty d.named.flags in
    let kept : (k : String)
        → lookup k flags_of
          ≡ or_else (lookup k (or_empty c.flags)) (lookup k (or_empty s.network.flags)) =
      λ k. ground (arith, named, filled.flags k) in
    record {
      live = shape.0;
      named = λ given. ground (arith, shape, named.2, filled.name);
      marked = ground (arith, shape, named, filled.is_beacon);
      staked = λ key cert. ground (arith, shape, named, filled.staking_files key cert);
      identified = ground (arith, shape);
      flags = λ k. ground (arith, shape, kept k);
      api_port = λ fixed.
          HasPort-or_else H H.keys.http_port (or_empty c.flags) (or_empty s.network.flags) flags_of
            n.api_port (kept H.keys.http_port)
            (ground (
              arith,
              is_made.shape,
              port_of_given H flags_of is_made.file H.keys.http_port built.api_port.0 n.api_port,
            ));
      p2p_port = λ fixed.
          HasPort-or_else H H.keys.staking_port (or_empty c.flags) (or_empty s.network.flags)
            flags_of n.p2p_port (kept H.keys.staking_port)
            (ground (
              arith,
              is_made.shape,
              port_of_given H flags_of is_made.file H.keys.staking_port built.p2p_port.0 n.p2p_port,
            ));
      db_dir = λ dir there. ground (
        arith,
        is_made.shape,
        kept H.keys.db_path,
        get_config_entry_lem flags_of is_made.file H.keys.db_path
            (H.join is_made.made.data_dir "db"),
        built.db_dir,
      );
    }
