-- ===== src/Local/Snapshots/Flags.antt =====
-- local/snapshot.go: flags under the names of old versions (`fixDeprecatedLuxdFlags`).
use netrunner.Prelude.{String, Option, none, some, str_eq, if◌then◌else◌}
use netrunner.Prelude.Action.{Result, ok, err, wrong_type}
use netrunner.Prelude.Dict.{Dict, lookup, insert, remove}
use netrunner.Host.{Host, Value, as_text}
use netrunner.Config.{NodeConfig}

abbrev pub deprecated_build_dir_key : String
deprecated_build_dir_key = "build-dir"

abbrev pub deprecated_whitelisted_subnets_key : String
deprecated_whitelisted_subnets_key = "whitelisted-subnets"

-- the new flag, if the old one is not empty, and the old one deleted
unfoldable pub replace_flag : String → String → String → String → Dict Value → Dict Value
replace_flag old key text value flags =
    remove old (if str_eq text "" then flags else insert key (Value.text value) flags)

module _ (H : Host) where
  open H use {keys, join}

  abbrev as_subnets : Dict Value → Option String → Result (Dict Value)
  as_subnets flags none = err (wrong_type deprecated_whitelisted_subnets_key)
  as_subnets flags (some v) =
      ok (replace_flag deprecated_whitelisted_subnets_key keys.track_subnets v v flags)

  unfoldable pub fix_subnets : Dict Value → Option Value → Result (Dict Value)
  unfolding replace_flag
  fix_subnets flags none = ok flags
  fix_subnets flags (some v) = as_subnets flags (as_text v)

  abbrev as_build_dir : Dict Value → Option String → Result (Dict Value)
  as_build_dir flags none = err (wrong_type deprecated_build_dir_key)
  as_build_dir flags (some v) =
      ok (replace_flag deprecated_build_dir_key keys.plugin_dir v (join v "plugins") flags)

  unfoldable pub fix_build_dir : Dict Value → Option Value → Result (Dict Value)
  unfolding replace_flag
  fix_build_dir flags none = ok flags
  fix_build_dir flags (some v) = as_build_dir flags (as_text v)

  abbrev then_build_dir : Result (Dict Value) → Result (Dict Value)
  then_build_dir (err e) = err e
  then_build_dir (ok flags) = fix_build_dir flags (lookup deprecated_build_dir_key flags)

  unfoldable pub fix_deprecated_luxd_flags : Dict Value → Result (Dict Value)
  unfolding fix_subnets fix_build_dir
  fix_deprecated_luxd_flags flags =
      then_build_dir (fix_subnets flags (lookup deprecated_whitelisted_subnets_key flags))

  -- A nil map has no such flags, and nothing is written to it.
  unfoldable pub fix_map : Option (Dict Value) → Result (Option (Dict Value))
  unfolding fix_deprecated_luxd_flags
  fix_map none = ok none
  fix_map (some flags) = elim (fix_deprecated_luxd_flags flags) [
    | err e ↦ err e
    | ok fixed ↦ ok (some fixed)
  ]

  unfoldable pub fix_node : NodeConfig → Result NodeConfig
  unfolding fix_map
  fix_node c = elim (fix_map c.flags) [ err e ↦ err e | ok fixed ↦ ok (record c { flags = fixed }) ]
