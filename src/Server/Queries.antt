-- ===== src/Server/Queries.antt =====
-- server/server.go: the handlers that only look, and waiting for a healthy cluster.
use netrunner.Prelude.{String, true, List, [], ◌∷◌, Option, none, some}
use netrunner.Prelude.Action.{Action, Result, ok, err, Error, gets, ◌>>◌}
use netrunner.Prelude.Dict.{Dict}
use netrunner.Host.{Host}
use netrunner.Server.Types.{ClusterInfo, NodeInfo}
use netrunner.Server.Runner.{Runner}
use netrunner.Server.State.{
  Server, require_network, on_network, on_cluster, publish_nodes, copy_cluster, sort_strings,
}

unfoldable pub uris_of : Dict NodeInfo → List String
uris_of [] = []
uris_of ((name, info) ∷ infos) = info.uri ∷ uris_of infos

module _ (H : Host) (R : Runner H) where
  unfoldable pub health : Action (Server H R) ClusterInfo
  health = do
    on_network H R R.await_healthy
    publish_nodes H R
    on_cluster H R (λ i. record i { healthy = true })
    copy_cluster H R

  abbrev cluster_uris : Option ClusterInfo → Result (List String)
  cluster_uris none = err Error.panic
  cluster_uris (some i) = ok (sort_strings (uris_of i.node_infos))

  unfoldable pub uris : Action (Server H R) (List String)
  uris s = (do require_network H R; λ t. (cluster_uris s.cluster_info, t)) s

  unfoldable pub status : Action (Server H R) (Option ClusterInfo)
  status s = (do require_network H R; gets (λ t. t.cluster_info)) s

  unfoldable pub remove_snapshot : String → Action (Server H R) (Unit {0})
  remove_snapshot name = on_network H R (R.remove_snapshot name)

  unfoldable pub get_snapshot_names : Action (Server H R) (List String)
  get_snapshot_names = on_network H R R.get_snapshot_names
