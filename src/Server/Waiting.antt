-- ===== src/Server/Waiting.antt =====
-- server/server.go: WaitForHealthy, which polls the server's state while other requests are served.
pub mod Outcome
use netrunner.Prelude.{
  Bool, true, false, not, ◌&&◌, List, [], ◌∷◌, Option, none, some, is_some, if◌then◌else◌,
}
use netrunner.Prelude.Action.{Result, ok, err, Error, not_bootstrapped, external}
use netrunner.Host.{Host}
use netrunner.Server.Types.{ClusterInfo}
use netrunner.Server.Runner.{Runner}
use netrunner.Server.State.{Server}

-- A response and an error: gRPC handlers may answer with both.
pub record Answer : Type 0 where
  pub cluster : Option ClusterInfo
  pub error : Option Error

-- One round of the loop: whether the context is done, which case the select takes if two are ready,
-- and what other requests do to the server before the next round.
pub record Round (H : Host) (R : Runner H) : Type 0 where
  pub is_done : Bool
  pub takes_done : Bool
  pub others : Server H R → Server H R

module _ (H : Host) (R : Runner H) where
  -- an answer with a copy of the cluster info, or the error of copying
  abbrev with_copy : Option Error → Result ClusterInfo → Answer
  with_copy error (ok i) = record { cluster = some i; error = error }
  with_copy none (err e) = record { cluster = none; error = some e }
  with_copy (some first) (err e) = record { cluster = none; error = some first }

  abbrev copied : Option Error → ClusterInfo → Server H R → Option Answer × Server H R
  copied error i s = (
    some (with_copy error (R.json_copy i s.world).0),
    record s { world = (R.json_copy i s.world).1 },
  )

  abbrev deadline : Error
  deadline = external "context deadline exceeded"

  abbrev refused : Answer
  refused = record { cluster = none; error = some not_bootstrapped }

  -- the select, and the test of the network after it
  unfoldable pub select :
      Round H R → ClusterInfo → Option Error → Server H R → Option Answer × Server H R
  select r i (some e) s =
      if r.is_done && r.takes_done
      then copied (some deadline) i s
      else copied (some e) i (record s { async_error = none })
  select r i none s =
      if r.is_done
      then copied (some deadline) i s
      else if is_some s.network
      then (none, s)
      else (some refused, s)

  unfoldable pub look : Round H R → Option ClusterInfo → Server H R → Option Answer × Server H R
  unfolding select
  look r none s = (some refused, s)
  look r (some i) s =
      if i.custom_chains_healthy then copied none i s else select r i s.async_error s

  abbrev go_on :
      Option Answer × Server H R
      → (Server H R → Option Answer × Server H R)
      → Option Answer × Server H R
  go_on (some a, s) rest = (some a, s)
  go_on (none, s) rest = rest s

  -- The answer, or `none` if the handler still waits after these rounds.
  unfoldable pub wait_for_healthy : List (Round H R) → Server H R → Option Answer × Server H R
  wait_for_healthy [] s = (none, s)
  wait_for_healthy (r ∷ rs) s =
      go_on (look r s.cluster_info s) (λ t. wait_for_healthy rs (r.others t))
