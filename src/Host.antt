-- ===== src/Host.antt =====
-- What the program calls and does not implement: the luxd binary and its processes, the packages of
-- github.com/luxdefi/node (keys, node IDs, beacons), the file system, ports, JSON and paths.
-- `World` is the state outside the program. An operation that reads or changes it is an action.
pub mod Values
pub use Values.*
use netrunner.Prelude.{ℕ, String, Bool, List, Option}
use netrunner.Prelude.Action.{Action}
use netrunner.Prelude.Dict.{Dict}
use Values.{Value, Keys}

-- outcome of os.Stat
pub data Stat : Type 0 where
  present absent unreadable : Stat

pub record Host : Type 1 where
  pub World : Type 0
  pub keys : Keys
  -- a luxd process, as `NodeProcess` shows it: the exit code that `Stop` returns
  pub Process : Type 0
  pub new_process : String → List String → Action World Process
  pub stop_process : Process → World → ℕ × World
  -- output of `luxd --version`, and the first match of the pattern `\/([^ ]+)` in it
  pub node_version_output : String → Action World String
  pub version_match : String → Option String
  -- semver.Compare(a, b) < 0
  pub older : String → String → Bool
  -- staking.NewCertAndKeyBytes, bls.NewSecretKey in base64, base64 decoding, utils.ToNodeID
  pub new_cert_and_key : Action World (String × String)
  pub new_signing_key : Action World String
  pub base64_decode : String → Option String
  pub node_id_of : String → String → Option String
  -- beacon.Set: `Add` refuses a beacon that it holds
  pub Beacons : Type 0
  pub no_beacons : Beacons
  pub add_beacon : String → ℕ → Beacons → Option Beacons
  pub remove_beacon : String → Beacons → Beacons
  pub ips_arg : Beacons → String
  pub ids_arg : Beacons → String
  -- ids.ToID on the bytes of a text of at most 32 bytes, padded with zeros, and the ID's text
  pub padded_id : String → String
  -- constants.LocalID, constants.NetworkName
  pub local_id : ℕ
  pub network_name : ℕ → String
  -- encoding/json into a map, and back
  pub unmarshal : String → Option (Dict Value)
  pub marshal : Dict Value → String
  pub marshal_value : Value → String
  -- conversions of a float64, given by its bits
  pub float_to_u16 : ℕ → ℕ
  pub float_to_u32 : ℕ → ℕ
  pub float_to_int : ℕ → ℕ
  -- fmt.Sprintf("%v", v)
  pub show_value : Value → String
  -- a test peer attached to a node, its ID, and sending it a message
  pub Peer : Type 0
  pub attach_peer : String → ℕ → ℕ → Action World Peer
  pub peer_id : Peer → String
  pub send : Peer → String → ℕ → World → Bool × World
  -- files and paths
  pub stat : String → World → Stat × World
  pub mkdir_all : String → Action World Unit
  -- time.Now().Format(dirTimestampFormat)
  pub timestamp : World → String × World
  -- `true` if the directory is new, `false` if it was there
  pub mkdir : String → Action World Bool
  pub create_and_write : String → String → Action World Unit
  pub read_file : String → Action World String
  -- the contents of a file, none if there is no such file
  pub read_optional : String → Action World (Option String)
  pub remove_all : String → Action World Unit
  pub copy_dir : String → String → Action World Unit
  pub glob : String → Action World (List String)
  pub join : String → String → String
  pub dir : String → String
  pub base : String → String
  pub temp_dir : String
  -- the home directory of the user
  pub home_dir : String
  -- time.Parse(TimeParseLayout, s), as seconds; time.Now
  pub parse_time : String → Option ℕ
  pub now : World → ℕ × World
  pub pid : ℕ
  -- net.Listen on the port succeeds
  pub is_free_port : ℕ → World → Bool × World
  -- the rounds that `getFreePort` makes before its timeout of 3 seconds ends
  pub port_tries : ℕ
  -- math/rand: the next value of rand.Intn
  pub rand_intn : ℕ → World → ℕ × World
