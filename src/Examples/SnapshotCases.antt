-- ===== src/Examples/SnapshotCases.antt =====
-- The properties of single calls on snapshots, on the demo network.
use Prim.Native.Char.{code}
use netrunner.Prelude.{
  String, true, false, ◌&&◌, ◌≡◌, ◌⊎◌, refl, [], ◌∷◌, none, some, str_eq, Bool, ◌||◌, not, ◌==◌,
  ◌<>◌, All, map, if◌then◌else◌,
}
use netrunner.Prelude.Action.{
  ok, err, is_ok, network_stopped, invalid_snapshot_name, snapshot_exists, snapshot_not_found,
}
use netrunner.Prelude.Dict.{Dict, lookup}
use netrunner.Host.{Host, Value, Stat}
use netrunner.Utils.{stat_result}
use netrunner.Local.Types.{LocalNetwork, State}
use netrunner.Local.Snapshots.{Codec, snapshot_dir, snapshot_prefix}
use netrunner.Local.Snapshots.Flags.{fix_deprecated_luxd_flags}
use netrunner.Local.Snapshots.Fixed.{fixed_entry, text_if_given, fix_deprecated_luxd_flags_lem}
use netrunner.Local.Snapshots.Save.{save_snapshot}
use netrunner.Local.Snapshots.Load.{load_snapshot}
use netrunner.Local.Snapshots.Names.{remove_snapshot, get_snapshot_names}
use netrunner.Local.Snapshots.Outcomes.{Emptied, save_snapshot_cases, remove_snapshot-gone}
use netrunner.Local.Snapshots.Listed.{get_snapshot_names_lem}
use netrunner.Examples.Demo.{demo, demo_state, demo_network}
use netrunner.Examples.Snapshots.{no_overrides}

abbrev codec : Codec
codec = record {
  marshal_config = λ c. "{}";
  unmarshal_config = λ text. none;
  marshal_texts = λ m. "{}";
  unmarshal_texts = λ text. none;
  id_from_string = λ text. some text;
}

abbrev a_name : String
a_name = "s"

abbrev old_flags : Dict Value
old_flags = ("build-dir", Value.text "lux") ∷ ("whitelisted-subnets", Value.text "") ∷ []

fix_deprecated_luxd_flags_lem_example :
    (is_ok (fix_deprecated_luxd_flags demo old_flags) ≡ (
      text_if_given (lookup "whitelisted-subnets" old_flags)
      && text_if_given (lookup "build-dir" old_flags)))
    × ((fixed : Dict Value) (k : String)
        → fix_deprecated_luxd_flags demo old_flags ≡ ok fixed
        → lookup k fixed ≡ fixed_entry demo old_flags k)
fix_deprecated_luxd_flags_lem_example = fix_deprecated_luxd_flags_lem demo old_flags refl

save_snapshot_cases_example :
    let r = save_snapshot demo codec a_name demo_state in
    (((is_ok r.0 ≡ false) × (r.1.network ≡ demo_network)) ⊎ Emptied demo_network r.1.network)
    × (false ≡ true → r ≡ (err network_stopped, demo_state))
    × (false ≡ false → a_name ≡ "" → r ≡ (err invalid_snapshot_name, demo_state))
    × (false ≡ false
        → str_eq a_name "" ≡ false
        → Stat.present ≡ Stat.present
        → (r.0 ≡ err snapshot_exists) × (r.1.network ≡ demo_network))
save_snapshot_cases_example = save_snapshot_cases demo codec a_name demo_state

abbrev has_slash : String → Bool
has_slash String.[] = false
has_slash (String.◌∷◌ c s) = let rest = has_slash s in if code c == b'/' then true else rest

-- the text after the last slash
abbrev last_part : String → String
last_part String.[] = String.[]
last_part (String.◌∷◌ c s) =
    let rest = last_part s in
    if has_slash s then rest else if code c == b'/' then s else String.◌∷◌ c s

-- A host with joined paths, and one snapshot, which is there until it is removed: in world 0.
abbrev shelf : Host
shelf = record demo {
  join = λ dir file. dir <> "/" <> file;
  base = last_part;
  stat =
      λ path w. (if str_eq path "snapshots" || not (w == 0) then Stat.present else Stat.absent, w);
  remove_all = λ path w. (ok tt, 0);
  glob = λ pattern w. (ok ("snapshots/anr-snapshot-a" ∷ []), w);
}

abbrev shelf_network : LocalNetwork shelf
shelf_network = record {
  network_id = 1337;
  genesis = "genesis";
  stopping = false;
  next_node_suffix = 1;
  nodes = [];
  bootstraps = [];
  root_dir = "root";
  snapshots_dir = "snapshots";
  flags = none;
  binary_path = "luxd";
  chain_config_files = [];
  upgrade_config_files = [];
  subnet_config_files = [];
  reassign_ports_if_used = false;
  subnet_id_to_elastic_subnet_id = [];
}

abbrev shelf_state : State shelf
shelf_state = record { network = shelf_network; world = 1 }

shelf_removed : (remove_snapshot shelf shelf_network a_name 1).0 ≡ ok tt
unfolding remove_snapshot stat_result
shelf_removed = refl

remove_snapshot-gone_example :
    let t : State shelf = record shelf_state {
      world = (remove_snapshot shelf shelf_network a_name 1).1;
    } in
    ((shelf.stat (snapshot_dir shelf shelf_network a_name) 1).0 ≡ Stat.present)
    × ((load_snapshot shelf codec a_name no_overrides t).0 ≡ err snapshot_not_found)
    × ((load_snapshot shelf codec a_name no_overrides t).1.network ≡ shelf_network)
    × ((remove_snapshot shelf shelf_network a_name t.world).0 ≡ err snapshot_not_found)
remove_snapshot-gone_example =
    remove_snapshot-gone shelf codec a_name no_overrides shelf_state (λ w h. refl) shelf_removed

shelf_listed :
    All
      (λ name. shelf.base (snapshot_dir shelf shelf_network name) ≡ snapshot_prefix <> name)
      ("a" ∷ [])
shelf_listed = (refl, tt)

shelf_found :
    (shelf.glob (shelf.join "snapshots" (snapshot_prefix <> "*")) 1).0
    ≡ ok (map (snapshot_dir shelf shelf_network) ("a" ∷ []))
shelf_found = refl

get_snapshot_names_lem_example : (get_snapshot_names shelf shelf_network 1).0 ≡ ok ("a" ∷ [])
get_snapshot_names_lem_example =
    get_snapshot_names_lem shelf shelf_network ("a" ∷ []) 1 shelf_listed refl shelf_found
