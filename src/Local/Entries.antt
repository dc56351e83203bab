-- ===== src/Local/Entries.antt =====
-- local/helpers.go: an entry of a node's flags or config file, and the network's flags.
use netrunner.Prelude.{String, ◌≡◌, inl, inr, Option, none, some, arith}
use netrunner.Prelude.Action.{Result, ok, wrong_type, result_of}
use netrunner.Prelude.Dict.{Dict, lookup, add_missing}
use netrunner.Host.{Value, as_text}
use netrunner.Config.Node.{TextIfGiven}

unfoldable pub file_entry : String → String → Option Value → Result String
file_entry key default none = ok default
file_entry key default (some v) = result_of (as_text v) (wrong_type key)

unfoldable pub flag_entry : String → String → Option Value → Option Value → Result String
unfolding file_entry
flag_entry key default none in_file = file_entry key default in_file
flag_entry key default (some v) in_file = result_of (as_text v) (wrong_type key)

unfoldable pub get_config_entry : Dict Value → Dict Value → String → String → Result String
unfolding flag_entry
get_config_entry flags config_file key default =
    flag_entry key default (lookup key flags) (lookup key config_file)

unfoldable pub add_network_flags : Dict Value → Dict Value → Dict Value
add_network_flags network_flags node_flags = add_missing network_flags node_flags

-- the value that decides: the flag if it is given, else the entry of the config file, else `default`
abbrev pub deciding : Option Value → Option Value → String → Value
deciding none none default = Value.text default
deciding none (some v) default = v
deciding (some v) in_file default = v

-- An entry is the text that the flags give, else the one in the config file, else the default; it
-- is an error exactly when the value that decides is no text.
pub get_config_entry_lem :
    (flags config_file : Dict Value) (key default : String)
    → get_config_entry flags config_file key default
      ≡ result_of
          (as_text (deciding (lookup key flags) (lookup key config_file) default))
          (wrong_type key)
unfolding get_config_entry
get_config_entry_lem flags config_file key default = ground arith

-- Where the flags and the config file give only texts for the key, the entry is never an error.
pub get_config_entry-ok :
    (flags config_file : Dict Value) (key default : String)
    → TextIfGiven (lookup key flags)
    → TextIfGiven (lookup key config_file)
    → (s : String) × (get_config_entry flags config_file key default ≡ ok s)
unfolding get_config_entry
get_config_entry-ok flags config_file key default (inr (s, e)) in_file = (s, rw e)
get_config_entry-ok flags config_file key default (inl e) (inr (s, f)) = (s, rw (e, f))
get_config_entry-ok flags config_file key default (inl e) (inl f) = (default, rw (e, f))
