-- ===== src/Local/Ops/Presence/Views.antt =====
-- What `addNode`, `removeNode` and `pauseNode` do to the view.
use mathlib.Core.Path.{subst}
use netrunner.Prelude.{
  String, true, false, ◌≡◌, ◌≢◌, ◌⊎◌, inl, inr, arith, eq_iff, Bool-cases, Option-cases,
}
use netrunner.Prelude.Action.{is_ok}
use netrunner.Prelude.Dict.{lookup, lookup-insert}
use netrunner.Host.{Host}
use netrunner.Config.{NodeConfig}
use netrunner.Local.Types.{State}
use netrunner.Local.Add.{add_node}
use netrunner.Local.Add.Cases.{add_node_stages, Started-IsLaunched}
use netrunner.Local.Add.Realised.{Started-Realises}
use netrunner.Local.Ops.{remove_node, pause_node}
use netrunner.Local.Ops.Steps.{remove_node_lem, pause_node_lem}
use netrunner.Local.Ops.Stopped.{pause}
use netrunner.Local.Ops.Presence.{
  absent, running, paused, view, Same, Put, Allowed, refused, paused_now,
}

-- What `addNode` does to the view: nothing, with an error, or one more node that runs.
abbrev pub AddOutcome : (H : Host) → NodeConfig → State H → Type 0
AddOutcome H c s =
    let v = view H s in
    let t = add_node H c s in
    ((is_ok t.0 ≡ false) × Same v (view H t.1))
    ⊎ ((k : String) × (v k ≢ running) × (c.name ≢ "" → k ≡ c.name) × Put v k running (view H t.1))

pub add_node-view : (H : Host) (c : NodeConfig) (s : State H) → AddOutcome H c s
add_node-view H c s = elim (add_node_stages H c s) [
  | inl (e, failed, same) ↦ inl (ground arith, λ k. ground (arith, same))
  | inr (n, d) ↦
      let launched = Started-IsLaunched H c s n d in
      inr (
        n.name,
        λ runs. ground (arith, launched.fresh),
        (Started-Realises H c s n d).named,
        λ j. ground (arith, d.added, lookup-insert n.name j n s.network.nodes, launched.is_live),
      )
]

pub remove_node-view :
    (H : Host) (k : String) (s : State H)
    → let v = view H s in
      let t = remove_node H k s in
      ((v k ≡ absent) × (is_ok t.0 ≡ false) × Same v (view H t.1))
      ⊎ ((v k ≢ absent) × (v k ≡ paused → is_ok t.0 ≡ true) × Put v k absent (view H t.1))
remove_node-view H k s = elim (Option-cases (lookup k s.network.nodes)) [
  | inl e ↦ inl (
    ground arith,
    ground (arith, (remove_node_lem H k s).1),
    λ j. ground (arith, (remove_node_lem H k s).0 j, eq_iff k j),
  )
  | inr (n, e) ↦ inr (
    λ gone. ground arith,
    λ held. ground (arith, (remove_node_lem H k s).1),
    λ j. ground (arith, (remove_node_lem H k s).0 j),
  )
]

pub pause_node-Allowed :
    (H : Host) (k : String) (s : State H)
    → Allowed (view H s) (pause k) (is_ok (pause_node H k s).0) (view H (pause_node H k s).1)
pause_node-Allowed H k s =
    let (at, result) = pause_node_lem H k s in
    elim (Option-cases (lookup k s.network.nodes)) [
      | inl e ↦
          subst (λ b. Allowed (view H s) (pause k) b (view H (pause_node H k s).1))
            (ground (arith, result)) (refused _ _ (λ j. ground (arith, at j, eq_iff k j)))
      | inr (n, e) ↦ elim (Bool-cases (is_ok (pause_node H k s).0)) [
        | inr x ↦ rw x (refused _ _ (λ j. ground (arith, at j, eq_iff k j, result)))
        | inl x ↦ rw x (
            paused_now k _ (ground (arith, result)) (λ j. ground (arith, at j, eq_iff k j, result)))
      ]
    ]
