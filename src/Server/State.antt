-- ===== src/Server/State.antt =====
-- server/server.go: the state of the server, and the parts that its handlers share.
use Prim.Native.String.{compare}
use text.Mathlib.Text.{is_le}
use netrunner.Prelude.{
  String, Bool, true, false, List, [], ◌∷◌, Option, none, some, if◌then◌else◌, is_some,
}
use netrunner.Prelude.Action.{Action, Result, ok, err, Error, not_bootstrapped, panic}
use netrunner.Prelude.Dict.{keys}
use netrunner.Host.{Host}
use netrunner.Server.Types.{ClusterInfo}
use netrunner.Server.Runner.{Runner, Live}

-- sort.Strings
unfoldable pub insert_sorted : String → List String → List String
insert_sorted s [] = s ∷ []
insert_sorted s (t ∷ ts) = if is_le (compare s t) then s ∷ t ∷ ts else t ∷ insert_sorted s ts

unfoldable pub sort_strings : List String → List String
unfolding insert_sorted
sort_strings [] = []
sort_strings (s ∷ ss) = insert_sorted s (sort_strings ss)

-- The fields of `server` that its handlers read and write. The lock `mu` is held for the whole of a
-- handler, so that a handler is one step.
pub record Server (H : Host) (R : Runner H) : Type 0 where
  pub redirect_nodes_output : Bool
  pub snapshots_dir : String
  pub cluster_info : Option ClusterInfo
  pub network : Option R.Network
  -- the channel `asyncErrCh`, with room for one error
  pub async_error : Option Error
  pub world : H.World

module _ (H : Host) (R : Runner H) where
  abbrev pub put_live : Server H R → Live R.Network H.World → Server H R
  put_live s l = record s { network = some l.network; world = l.world }

  abbrev with_network :
      {A : Type 0} → Option R.Network → Action (Live R.Network H.World) A → Action (Server H R) A
  with_network none m s = (err not_bootstrapped, s)
  with_network (some n) m s =
      let r = m (record { network = n; world = s.world }) in (r.0, put_live s r.1)

  -- `if s.network == nil { return ErrNotBootstrapped }`, and a call on the network
  abbrev pub on_network : {A : Type 0} → Action (Live R.Network H.World) A → Action (Server H R) A
  on_network m s = with_network s.network m s

  abbrev pub on_world : {A : Type 0} → Action H.World A → Action (Server H R) A
  on_world m s = ((m s.world).0, record s { world = (m s.world).1 })

  -- an assignment to fields of `s.clusterInfo`, a nil pointer before the first start
  abbrev pub on_cluster : (ClusterInfo → ClusterInfo) → Action (Server H R) (Unit {0})
  on_cluster f s = elim s.cluster_info [
    | none ↦ (err panic, s)
    | some i ↦ (ok tt, record s { cluster_info = some (f i) })
  ]

  abbrev pub copy_cluster : Action (Server H R) ClusterInfo
  copy_cluster s = elim s.cluster_info [
    | none ↦ (err panic, s)
    | some i ↦ on_world (R.json_copy i) s
  ]

  abbrev pub nodes_of : R.Network → ClusterInfo → ClusterInfo
  nodes_of n i = record i {
    node_names = sort_strings (keys (R.node_infos n));
    node_infos = R.node_infos n;
  }

  -- s.clusterInfo.NodeNames, NodeInfos = those of the network
  abbrev pub publish_nodes : Action (Server H R) (Unit {0})
  publish_nodes s = elim s.network [ none ↦ (err panic, s) | some n ↦ on_cluster (nodes_of n) s ]

  abbrev pub network_of : R.Network → ClusterInfo → ClusterInfo
  network_of n i = record (nodes_of n i) {
    healthy = true;
    custom_chains_healthy = true;
    custom_chains = R.custom_chains n;
    subnets = R.subnets n;
  }

  unfoldable pub update_cluster_info : Action (Server H R) (Unit {0})
  unfolding sort_strings
  update_cluster_info s = elim s.network [
    | none ↦ (ok tt, s)
    | some n ↦ on_cluster (network_of n) s
  ]

  abbrev pub unhealthy : ClusterInfo → ClusterInfo
  unhealthy i = record i { healthy = false; custom_chains_healthy = false }

  abbrev mark : Option ClusterInfo → Option ClusterInfo
  mark none = none
  mark (some i) = some (unhealthy i)

  abbrev stopped_world : Option R.Network → H.World → H.World
  stopped_world none w = w
  stopped_world (some n) w = R.stop n w

  -- An error left in the channel is taken out first, so that the new one always finds room.
  unfoldable pub stop_and_remove_network : Option Error → Server H R → Server H R
  stop_and_remove_network e s = record s {
    async_error = e;
    world = stopped_world s.network s.world;
    cluster_info = mark s.cluster_info;
    network = none;
  }

  -- `if err := m(); err != nil { s.stopAndRemoveNetwork(...); return nil, err }`
  abbrev or_stop_with : {A : Type 0} → (Error → Option Error) → Result A → Action (Server H R) A
  or_stop_with keep (ok a) s = (ok a, s)
  or_stop_with keep (err e) s = (err e, stop_and_remove_network (keep e) s)

  abbrev pub or_stop :
      {A : Type 0} → (Error → Option Error) → Action (Server H R) A → Action (Server H R) A
  or_stop keep m s = or_stop_with keep (m s).0 (m s).1

  abbrev pub require_network : Action (Server H R) (Unit {0})
  require_network s = if is_some s.network then (ok tt, s) else (err not_bootstrapped, s)

  -- a call whose error is looked at later
  abbrev pub attempt : {A : Type 0} → Action (Server H R) A → Action (Server H R) (Result A)
  attempt m s = (ok (m s).0, (m s).1)
