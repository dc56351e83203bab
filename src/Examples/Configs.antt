-- ===== src/Examples/Configs.antt =====
-- The properties of the configuration's checks and of the pure parts of starting a node, on concrete
-- input.
use mathlib.Core.Option
use netrunner.Prelude.{
  ℕ, suc, ◌<◌, String, true, false, ◌≡◌, ◌≢◌, refl, ◌↔◌, ◌⊎◌, [], ◌∷◌, some, arith, if◌then◌else◌,
  length, or_else,
}
use netrunner.Prelude.Action.{ok}
use netrunner.Prelude.Dict.{Dict, lookup}
use netrunner.Host.{Value}
use netrunner.Config.Node
use netrunner.Config.Node.{IsWellTyped, validate_node_iff}
use netrunner.Config.Network
use netrunner.Config.Network.{IsValidNetwork, validate_network_iff}
use netrunner.Local.Ports.{get_port, given_port}
use netrunner.Local.Ports.Bounds.{BoundsPorts, get_port_sound, get_port-given}
use netrunner.Local.Args.{add_node_flags, is_port_flag}
use netrunner.Local.Args.Versions.{trim_slash}
use netrunner.Local.Args.Precedence.{lookup-add_node_flags}
use netrunner.Local.Names.Search.{search_suffix, search_suffix_total, IsFree}
use netrunner.Examples.Demo.{demo, staked_config, network_config}

validate_node_iff_example : (Node.validate demo (staked_config "node1") 1337 ≡ ok tt) ↔ (
    ((staked_config "node1").staking_key ≢ "")
    × ((staked_config "node1").staking_cert ≢ "")
    × (((staked_config "node1").config_file ≡ "")
        ⊎ ((m : Dict Value) × (demo.unmarshal (staked_config "node1").config_file ≡ some m)
            × IsWellTyped demo 1337 m)))
validate_node_iff_example = validate_node_iff demo (staked_config "node1") 1337

validate_network_iff_example :
    (Network.validate demo network_config ≡ ok tt)
    ↔ ((id : ℕ) × IsValidNetwork demo network_config id)
validate_network_iff_example = validate_network_iff demo network_config

abbrev given : Dict Value
given = ("http-port", Value.int 9630) ∷ []

demo-BoundsPorts : BoundsPorts demo
demo-BoundsPorts = record { intn_lt = λ n w h. h; u16_lt = λ b. ground arith }

given_port_found : lookup "http-port" given ≡ some (Value.int 9630)
unfolding lookup
given_port_found = refl

given_port_read : given_port demo (Value.int 9630) ≡ some 9630
unfolding given_port
given_port_read = refl

get_port_found : (get_port demo given [] "http-port" false 0).0 ≡ ok 9630
get_port_found =
    get_port-given demo given [] "http-port" 0 (Value.int 9630) 9630 given_port_found
      given_port_read

get_port_sound_example :
    (9630 < 65536)
    × ((w' : ℕ) × (demo.is_free_port 9630 w'
          ≡ (true, (get_port demo given [] "http-port" false 0).1)))
get_port_sound_example =
    get_port_sound demo demo-BoundsPorts given [] "http-port" false 0 9630 get_port_found

abbrev flags : Dict String
flags = ("track-subnets", "abc") ∷ ("http-port", "9630") ∷ []

lookup-add_node_flags_example : lookup "http-port" (add_node_flags demo given flags) ≡ (
    if is_port_flag demo "http-port"
    then lookup "http-port" flags
    else or_else (Option.map demo.show_value (lookup "http-port" given)) (lookup "http-port" flags))
lookup-add_node_flags_example = lookup-add_node_flags demo "http-port" given flags

abbrev two_names : Dict ℕ
two_names = ("node1", 0) ∷ ("node2", 0) ∷ []

search_suffix_total_example : IsFree two_names (search_suffix (suc (length two_names)) 1 two_names)
search_suffix_total_example = search_suffix_total 1 two_names (ground arith)

trims : trim_slash "/a/b/" ≡ "/a/b"
unfolding trim_slash
trims = refl
