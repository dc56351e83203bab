-- ===== src/Local/Args/Precedence.antt =====
-- Which of the sources of a luxd flag decides.
use mathlib.Core.Option
use netrunner.Prelude.{String, [], ◌∷◌, ◌≡◌, if◌then◌else◌, arith, eq_iff, or_else}
use netrunner.Prelude.Dict.{Dict, lookup, lookup-insert}
use netrunner.Host.{Host, Value}
use netrunner.Local.Args.{add_node_flags, is_port_flag}

-- A flag in the node's configuration overrides the runner's own, but for the two ports: the given
-- ports are never passed on as they are written.
pub lookup-add_node_flags :
    (H : Host) (k : String) (given : Dict Value) (flags : Dict String)
    → lookup k (add_node_flags H given flags) ≡ (
        if is_port_flag H k
        then lookup k flags
        else or_else (Option.map H.show_value (lookup k given)) (lookup k flags))
unfolding add_node_flags lookup
lookup-add_node_flags H k [] flags = ground arith
lookup-add_node_flags H k ((j, v) ∷ given) flags = ground (
  arith,
  lookup-add_node_flags H k given flags,
  lookup-insert j k (H.show_value v) (add_node_flags H given flags),
  eq_iff j k,
)
