-- ===== src/Local/Args/Versions.antt =====
-- local/network.go, local/deprecatedFlagsSupport.json: flags for old luxd versions.
use Prim.Native.Char.{code}
use netrunner.Prelude.{
  String, List, [], ◌∷◌, Option, none, some, str_eq, ◌==◌, if◌then◌else◌, or_else, ◌||◌,
}
use netrunner.Prelude.Dict.{Dict, lookup, insert, remove}
use netrunner.Host.{Host}

pub record DeprecatedFlag : Type 0 where
  pub version : String
  pub old_name : String
  pub new_name : String
  pub value_map : String

abbrev pub build_dir : DeprecatedFlag
build_dir = record {
  version = "v1.9.6";
  old_name = "build-dir";
  new_name = "plugin-dir";
  value_map = "parent-dir";
}

abbrev pub whitelisted_subnets : DeprecatedFlag
whitelisted_subnets = record {
  version = "v1.9.6";
  old_name = "whitelisted-subnets";
  new_name = "track-subnets";
  value_map = "";
}

-- the table embedded from deprecatedFlagsSupport.json
abbrev pub deprecated_flags_support : List DeprecatedFlag
deprecated_flags_support = build_dir ∷ whitelisted_subnets ∷ []

-- strings.TrimSuffix(s, "/")
unfoldable pub trim_slash : String → String
trim_slash String.[] = String.[]
trim_slash (String.◌∷◌ c s) =
    let rest = String.◌∷◌ c (trim_slash s) in
    if str_eq s "" then (if code c == b'/' then String.[] else rest) else rest

module _ (H : Host) where
  open H use {dir, older}

  unfoldable pub old_value : DeprecatedFlag → String → String
  unfolding trim_slash
  old_value d v = if str_eq d.value_map "parent-dir" then dir (trim_slash v) else v

  unfoldable pub rename : DeprecatedFlag → Option String → Dict String → Dict String
  unfolding old_value
  rename d none flags = flags
  rename d (some v) flags =
      remove d.new_name (if str_eq v "" then flags else insert d.old_name (old_value d v) flags)

  unfoldable pub support : String → List DeprecatedFlag → Dict String → Dict String
  unfolding rename
  support version [] flags = flags
  support version (d ∷ ds) flags =
      support version ds
        (if older version d.version then rename d (lookup d.new_name flags) flags else flags)

  unfoldable pub get_flags_for_luxd_version : String → Dict String → Dict String
  unfolding support
  get_flags_for_luxd_version version flags = support version deprecated_flags_support flags

-- what an old luxd is given for the flag `k`
abbrev pub for_old_luxd : (H : Host) → Dict String → String → Option String
for_old_luxd H flags k =
    if str_eq "plugin-dir" k || str_eq "track-subnets" k
    then none
    else if str_eq "build-dir" k
    then or_else (renamed build_dir) (lookup k flags)
    else if str_eq "whitelisted-subnets" k
    then or_else (renamed whitelisted_subnets) (lookup k flags)
    else lookup k flags
  where
    renamed : DeprecatedFlag → Option String
    renamed d = elim (lookup d.new_name flags) [
      | none ↦ none
      | some v ↦ if str_eq v "" then none else some (old_value H d v)
    ]
