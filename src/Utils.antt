-- ===== src/Utils.antt =====
-- utils/utils.go: paths of executables, and the ID of a virtual machine.
pub mod Participants
use Prim.Native.String.{len}
use netrunner.Prelude.{String, none, some, ◌<>◌, str_eq, ltb, if◌then◌else◌}
use netrunner.Prelude.Dict.{insert, remove}
use netrunner.Prelude.Action.{
  Action, ◌>>=◌, pure, Result, ok, err, Error, external, invalid_exec_path, exec_not_exists,
  plugin_not_exists, vm_name_too_long,
}
use netrunner.Host.{Host, Value, Stat, present, absent, unreadable}

-- no error, the error for a missing file, or that of os.Stat
unfoldable pub stat_result : Error → Stat → Result (Unit {0})
stat_result missing present = ok tt
stat_result missing absent = err missing
stat_result missing unreadable = err (external "stat")

module _ (H : Host) where
  unfoldable pub check_exec_path : String → Action H.World (Unit {0})
  unfolding stat_result
  check_exec_path exec w =
      if str_eq exec ""
      then (err invalid_exec_path, w)
      else (stat_result exec_not_exists (H.stat exec w).0, (H.stat exec w).1)

  unfoldable pub check_plugin_path : String → Action H.World (Unit {0})
  unfolding stat_result
  check_plugin_path exec w = (stat_result plugin_not_exists (H.stat exec w).0, (H.stat exec w).1)

  unfoldable pub vm_id : String → Result String
  vm_id name = if ltb 32 (len name) then err vm_name_too_long else ok (H.padded_id name)

  unfoldable pub mkdir_with_timestamp : String → Action H.World String
  mkdir_with_timestamp prefix w =
      let name = prefix <> "_" <> (H.timestamp w).0 in
      (H.mkdir_all name >>= λ _. pure name) (H.timestamp w).1

  -- constants.RootDirPrefix under the directory for temporary files
  unfoldable pub default_root_dir : String → Action H.World String
  default_root_dir given =
      if str_eq given ""
      then (H.mkdir_all (H.join H.temp_dir "network-runner-root-data") >>= λ _.
          pure (H.join H.temp_dir "network-runner-root-data"))
      else pure given

  -- SetJSONKey of utils/json.go: an empty value deletes the key.
  unfoldable pub set_json_key : String → String → String → Result String
  set_json_key body key value = elim (H.unmarshal body) [
    | none ↦ err (external "json")
    | some m ↦
        ok (H.marshal (if str_eq value "" then remove key m else insert key (Value.text value) m))
  ]
