-- ===== src/Local/Chains/Healthy.antt =====
-- local/network.go: waiting until the nodes are healthy (`healthy`). Each running node has a
-- goroutine; the turns that they take, in the order given, end when the context is done.
pub mod Outcome
use netrunner.Prelude.{String, Bool, true, false, List, [], ◌∷◌, Option, none, some, if◌then◌else◌}
use netrunner.Prelude.Action.{
  Action, Result, ok, err, network_stopped, stopped_unexpectedly, not_healthy,
}
use netrunner.Prelude.Dict.{Dict, lookup, remove}
use netrunner.Host.{Host}
use netrunner.Local.Types.{LocalNode, LocalNetwork, State}
use netrunner.Local.Chains.{Api, uri_of}

-- what a goroutine finds in its turn
pub data Look : Type 0 where
  dead sick well : Look

module _ (H : Host) (A : Api H) where
  open A use {is_running, is_healthy, turns}

  -- the nodes that are not paused
  unfoldable pub to_check : Dict (LocalNode H) → Dict (LocalNode H)
  to_check [] = []
  to_check ((k, n) ∷ nodes) = let rest = to_check nodes in if n.paused then rest else (k, n) ∷ rest

  -- one round of a node's loop
  unfoldable pub look : LocalNode H → H.World → Look × H.World
  look n w =
      let status = is_running n.process w in
      let health = is_healthy (uri_of n) status.1 in
      if status.0 then (if health.0 then well else sick, health.1) else (dead, status.1)

  -- The goroutines of `pending` have not returned yet; the first error ends all of them.
  unfoldable pub wait_all : List String → Dict (LocalNode H) → Action H.World (Unit {0})
  unfolding look lookup remove
  wait_all events [] w = (ok tt, w)
  wait_all [] ((k, n) ∷ pending) w = (err (not_healthy k), w)
  wait_all (k ∷ events) (first ∷ pending) w = elim (lookup k (first ∷ pending)) [
    | none ↦ wait_all events (first ∷ pending) w
    | some n ↦ elim (look n w).0 [
      | dead ↦ (err (stopped_unexpectedly k), (look n w).1)
      | sick ↦ wait_all events (first ∷ pending) (look n w).1
      | well ↦ wait_all events (remove k (first ∷ pending)) (look n w).1
    ]
  ]

  unfoldable pub healthy : Action (State H) (Unit {0})
  unfolding wait_all to_check
  healthy s =
      if s.network.stopping
      then (err network_stopped, s)
      else (let done = wait_all (turns s.world) (to_check s.network.nodes) s.world in
          (done.0, record s { world = done.1 }))
