-- ===== src/Local/Types.antt =====
-- local/node.go and local/network.go: `localNode`, `localNetwork`.
use netrunner.Prelude.{ℕ, String, Bool, Option}
use netrunner.Prelude.Dict.{Dict}
use netrunner.Host.{Host, Value}
use netrunner.Config.{NodeConfig}

pub record LocalNode (H : Host) : Type 0 where
  pub name : String
  pub node_id : String
  pub network_id : ℕ
  pub process : H.Process
  pub api_port : ℕ
  pub p2p_port : ℕ
  pub data_dir : String
  pub db_dir : String
  pub logs_dir : String
  pub plugin_dir : String
  pub config : NodeConfig
  pub http_host : String
  pub attached_peers : Dict H.Peer
  pub paused : Bool

pub record LocalNetwork (H : Host) : Type 0 where
  pub network_id : ℕ
  pub genesis : String
  -- `onStopCh` is closed
  pub stopping : Bool
  pub next_node_suffix : ℕ
  pub nodes : Dict (LocalNode H)
  pub bootstraps : H.Beacons
  pub root_dir : String
  pub snapshots_dir : String
  pub flags : Option (Dict Value)
  pub binary_path : String
  pub chain_config_files : Dict String
  pub upgrade_config_files : Dict String
  pub subnet_config_files : Dict String
  pub reassign_ports_if_used : Bool
  pub subnet_id_to_elastic_subnet_id : Dict String

-- The network and all that is outside the program.
pub record State (H : Host) : Type 0 where
  pub network : LocalNetwork H
  pub world : H.World
