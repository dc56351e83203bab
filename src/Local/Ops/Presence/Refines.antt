-- ===== src/Local/Ops/Presence/Refines.antt =====
-- Every method does what the abstract view allows.
use netrunner.Prelude.{String, false, ◌≡◌, refl, ap, inl, inr, List, [], ◌∷◌, arith, Bool-cases}
use netrunner.Prelude.Action.{Action, Result, ok, err, is_ok}
use netrunner.Prelude.Dict.{lookup}
use netrunner.Host.{Host}
use netrunner.Config.{NodeConfig}
use netrunner.Local.Types.{State}
use netrunner.Local.Add.{add_node}
use netrunner.Local.Ops.{
  add_node_method, remove_node_method, pause_node_method, stop_method, stop, unless_stopping,
  close_stop_channel, remove_node, pause_node,
}
use netrunner.Local.Ops.Steps.{stop_empties}
use netrunner.Local.Ops.Invariant.{IsValid, HostLaws, call-IsValid}
use netrunner.Local.Ops.Stopped.{Call, add, remove, pause, resume, restart, stop_it, call, forget}
use netrunner.Local.Ops.Presence.{view, Allowed, AllowedRun, refused, added, removed, stopped}
use netrunner.Local.Ops.Presence.Views.{add_node-view, remove_node-view, pause_node-Allowed}
use netrunner.Local.Ops.Presence.Places.{Allowed-rw, resume_node-Allowed, restart_node-Allowed}

remove_node-Allowed :
    (H : Host) (k : String) (s : State H)
    → Allowed (view H s) (remove k) (is_ok (remove_node H k s).0) (view H (remove_node H k s).1)
remove_node-Allowed H k s = elim (remove_node-view H k s) [
  | inl (missing, failed, kept) ↦ rw failed (refused _ _ kept)
  | inr (there, result, put) ↦ removed k _ _ there result put
]

-- A method that refuses while the network stops.
unless_stopping-Allowed :
    {A : Type 0} (H : Host) (c : Call) (m : Action (State H) A) (s : State H)
    → Allowed (view H s) c (is_ok (m s).0) (view H (m s).1)
    → Allowed (view H s) c (is_ok (unless_stopping H m s).0) (view H (unless_stopping H m s).1)
unless_stopping-Allowed H c m s allowed = elim (Bool-cases s.network.stopping) [
  | inl e ↦
      Allowed-rw _ _ _ false _ (view H s) (ground arith)
        (ap (view H) {x = (unless_stopping H m s).1} {y = s} (ground arith))
        (refused _ _ (λ j. refl))
  | inr e ↦
      Allowed-rw _ _ _ (is_ok (m s).0) _ (view H (m s).1) (ground arith)
        (ap (view H) {x = (unless_stopping H m s).1} {y = (m s).1} (ground arith)) allowed
]

add_node-Allowed :
    (H : Host) (c : NodeConfig) (s : State H)
    → Allowed (view H s) (add c) (is_ok (add_node H c s).0) (view H (add_node H c s).1)
add_node-Allowed H c s = elim (add_node-view H c s) [
  | inl (failed, same) ↦ rw failed (refused _ _ same)
  | inr (k, fresh, given, put) ↦ added c k _ _ fresh given put
]

is_ok-forget : {A : Type 0} (H : Host) (r : Result A) → is_ok (forget H r) ≡ is_ok r
is_ok-forget H (ok a) = refl
is_ok-forget H (err e) = refl

-- From a network whose nodes are valid, each method does to the view of the network what the
-- abstract view allows: a call that is refused changes no node's presence; adding, resuming and
-- restarting affect one node only, and never one that runs, but for the restart of that node; a
-- running node whose restart fails may be lost; removing a paused node succeeds; and stopping
-- leaves no node.
pub call-Allowed :
    (H : Host) (c : Call) (s : State H)
    → IsValid H s.network.nodes
    → Allowed (view H s) c (is_ok (call H c s).0) (view H (call H c s).1)
unfolding call add_node_method remove_node_method pause_node_method stop_method stop lookup
call-Allowed H (resume k) s valid = resume_node-Allowed H k s valid
call-Allowed H (restart k ch) s valid = restart_node-Allowed H k ch s valid
call-Allowed H (remove k) s valid =
    unless_stopping-Allowed H (remove k) (remove_node H k) s (remove_node-Allowed H k s)
call-Allowed H (pause k) s valid =
    unless_stopping-Allowed H (pause k) (pause_node H k) s (pause_node-Allowed H k s)
call-Allowed H (add c) s valid =
    rw (is_ok-forget H (add_node_method H c s).0)
      (unless_stopping-Allowed H (add c) (add_node H c) s (add_node-Allowed H c s))
call-Allowed H stop_it s valid =
    unless_stopping-Allowed H stop_it (λ t. stop H (close_stop_channel H t)) s
      (stopped _ _ (λ k. rw (stop_empties H (close_stop_channel H s)) refl))

-- Every history of calls of AddNode, RemoveNode, PauseNode, ResumeNode, RestartNode and Stop on a
-- network whose nodes are valid is one that the abstract view allows, call by call: what these methods do to the presence of nodes, and whether they succeed, refines the
-- abstract specification. In it a call is refused and changes nothing, or affects one node: adding
-- makes one run that did not, resuming one that was paused, restarting keeps a node or may lose one
-- that ran, pausing and removing change a node that was there; stopping leaves none.
pub run-AllowedRun :
    (H : Host)
    → HostLaws H
    → (cs : List Call) (s : State H) → IsValid H s.network.nodes
    → AllowedRun H cs s
run-AllowedRun H laws [] s valid = tt
run-AllowedRun H laws (c ∷ cs) s valid = (
  call-Allowed H c s valid,
  run-AllowedRun H laws cs (call H c s).1 (call-IsValid H laws c s valid),
)
