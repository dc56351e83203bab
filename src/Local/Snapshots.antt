-- ===== src/Local/Snapshots.antt =====
-- local/snapshot.go: saving a network into a directory, and starting one from it.
pub mod Flags
pub mod Fixed
pub mod Save
pub mod Load
pub mod Names
pub mod Restored
pub mod Saved
pub mod Stored
pub mod Recovered
pub mod Outcomes
pub mod Listed
pub mod Loaded
pub mod Roundtrip
use netrunner.Prelude.{String, ◌<>◌, Option}
use netrunner.Prelude.Dict.{Dict}
use netrunner.Host.{Host}
use netrunner.Config.{NetworkConfig}
use netrunner.Local.Types.{LocalNetwork}

-- encoding/json of `network.Config` and of `NetworkState`, which is an object of texts; and
-- ids.FromString, where an ID is its canonical text.
pub record Codec : Type 0 where
  pub marshal_config : NetworkConfig → String
  pub unmarshal_config : String → Option NetworkConfig
  pub marshal_texts : Dict String → String
  pub unmarshal_texts : String → Option (Dict String)
  pub id_from_string : String → Option String

abbrev pub snapshot_prefix : String
snapshot_prefix = "anr-snapshot-"

module _ (H : Host) where
  abbrev pub snapshot_dir : LocalNetwork H → String → String
  snapshot_dir ln name = H.join ln.snapshots_dir (snapshot_prefix <> name)

  abbrev pub network_file : LocalNetwork H → String → String
  network_file ln name = H.join (snapshot_dir ln name) "network.json"

  abbrev pub state_file : LocalNetwork H → String → String
  state_file ln name = H.join (snapshot_dir ln name) "state.json"

  abbrev pub db_dir : LocalNetwork H → String → String
  db_dir ln name = H.join (snapshot_dir ln name) "db"
