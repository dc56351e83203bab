-- ===== src/Local/Ops/Stopped.antt =====
-- Histories of calls on a network, and what `Stop` does to them.
use netrunner.Prelude.{String, true, false, ◌≡◌, refl, List, [], ◌∷◌, ◌++◌, arith}
use netrunner.Prelude.Action.{Result, Error, ok, err, is_ok, node_not_found, network_stopped}
use netrunner.Prelude.Dict.{lookup, keys}
use netrunner.Host.{Host}
use netrunner.Config.{NodeConfig}
use netrunner.Local.Types.{State}
use netrunner.Local.Ops.{
  Changes, add_node_method, remove_node_method, pause_node_method, resume_node, restart_node,
  stop_method, stop, close_stop_channel,
}
use netrunner.Local.Ops.Steps.{stop_empties, stop_all-frame}

-- the exported methods of `localNetwork` that act on a node or stop the network: AddNode, RemoveNode,
-- PauseNode, ResumeNode, RestartNode and Stop
pub data Call : Type 0 where
  add : NodeConfig → Call
  remove : String → Call
  pause : String → Call
  resume : String → Call
  restart : String → Changes → Call
  stop_it : Call

module _ (H : Host) where
  abbrev pub forget : {A : Type 0} → Result A → Result (Unit {0})
  forget (ok a) = ok tt
  forget (err e) = err e

  unfoldable pub call : Call → State H → Result (Unit {0}) × State H
  call (add c) s = (forget (add_node_method H c s).0, (add_node_method H c s).1)
  call (remove name) s = remove_node_method H name s
  call (pause name) s = pause_node_method H name s
  call (resume name) s = resume_node H name s
  call (restart name ch) s = restart_node H name ch s
  call stop_it s = stop_method H s

  unfoldable pub run : List Call → State H → State H
  run [] s = s
  run (c ∷ cs) s = run cs (call c s).1

-- A network that was stopped.
pub record IsDown (H : Host) (s : State H) : Type 0 where
  pub stopping : s.network.stopping ≡ true
  pub empty : s.network.nodes ≡ []

pub stop_method-IsDown :
    (H : Host) (s : State H) → s.network.stopping ≡ false → IsDown H (stop_method H s).1
unfolding stop_method stop
stop_method-IsDown H s running = record {
  stopping = ground (arith, stop_all-frame H (keys s.network.nodes) (close_stop_channel H s));
  empty = ground (arith, stop_empties H (close_stop_channel H s));
}

call-down :
    (H : Host) (c : Call) (s : State H)
    → IsDown H s
    → ((call H c s).1 ≡ s) × (is_ok (call H c s).0 ≡ false)
unfolding call lookup add_node_method remove_node_method pause_node_method resume_node restart_node
    stop_method
call-down H (add c) s d = ground arith
call-down H (remove name) s d = ground arith
call-down H (pause name) s d = ground arith
call-down H (resume name) s d = ground arith
call-down H (restart name ch) s d = ground arith
call-down H stop_it s d = ground arith

run-down : (H : Host) (cs : List Call) (s : State H) → IsDown H s → run H cs s ≡ s
unfolding run
run-down H [] s d = refl
run-down H (c ∷ cs) s d = let (same, refused) = call-down H c s d in rw same (run-down H cs s d)

-- When `Stop` has returned, on a network that was not stopping, no node is left, and it stays so:
-- whichever of AddNode, RemoveNode, PauseNode, ResumeNode, RestartNode and Stop are called after it,
-- in whatever order, the state does not change any more, the world outside included, and each of
-- these calls fails.
pub stop_is_final :
    (H : Host) (s : State H) (cs : List Call) (c : Call)
    → s.network.stopping ≡ false
    → let t = (stop_method H s).1 in
      (t.network.nodes ≡ []) × (run H cs t ≡ t) × (is_ok (call H c (run H cs t)).0 ≡ false)
stop_is_final H s cs c running =
    let d = stop_method-IsDown H s running in
    let same = run-down H cs (stop_method H s).1 d in
    (d.empty, same, rw same ((call-down H c (stop_method H s).1 d).1))

abbrev pub error_when_down : Call → Error
error_when_down (resume name) = node_not_found name
error_when_down (restart name ch) = node_not_found name
error_when_down _ = network_stopped

call-down-error :
    (H : Host) (c : Call) (s : State H) → IsDown H s → (call H c s).0 ≡ err (error_when_down c)
unfolding call lookup add_node_method remove_node_method pause_node_method resume_node restart_node
    stop_method
call-down-error H (add c) s d = ground arith
call-down-error H (remove name) s d = ground arith
call-down-error H (pause name) s d = ground arith
call-down-error H (resume name) s d = ground arith
call-down-error H (restart name ch) s d = ground arith
call-down-error H stop_it s d = ground arith

run-append :
    (H : Host) (cs ds : List Call) (s : State H) → run H (cs ++ ds) s ≡ run H ds (run H cs s)
unfolding run
run-append H [] ds s = refl
run-append H (c ∷ cs) ds s = run-append H cs ds (call H c s).1

-- The documentation of `network.Network` says that every method of a stopped network returns
-- ErrStopped. In every history of AddNode, RemoveNode, PauseNode, ResumeNode, RestartNode and Stop,
-- on a network that was not stopping at first, a call after the first Stop returns that error if it
-- is AddNode, RemoveNode, PauseNode or Stop; ResumeNode and RestartNode say instead that there is no
-- such node.
pub down_errors :
    (H : Host) (s : State H) (before after : List Call) (c : Call)
    → (run H before s).network.stopping ≡ false
    → (call H c (run H (before ++ (stop_it ∷ after)) s)).0 ≡ err (error_when_down c)
unfolding run call
down_errors H s before after c running =
    let t = run H before s in
    let d = stop_method-IsDown H t running in
    rw (run-append H before (stop_it ∷ after) s, run-down H after (stop_method H t).1 d)
      (call-down-error H c (stop_method H t).1 d)
