-- ===== src/Local/Snapshots/Names.antt =====
-- local/snapshot.go: removing a snapshot, and the names of the snapshots that there are.
use Prim.Native.Char.{code}
use netrunner.Prelude.{String, List, ◌<>◌, Option, none, some, ◌==◌, if◌then◌else◌, get_or, map}
use netrunner.Prelude.Action.{Action, ok, pure, lift, snapshot_not_found, external, ◌>>=◌, ◌>>◌}
use netrunner.Host.{Host, Stat}
use netrunner.Utils.{stat_result}
use netrunner.Local.Types.{LocalNetwork}
use netrunner.Local.Snapshots.{snapshot_prefix, snapshot_dir}

-- `s` after `p`, if it begins with `p`
unfoldable pub strip : String → String → Option String
strip String.[] s = some s
strip (String.◌∷◌ c p) String.[] = none
strip (String.◌∷◌ c p) (String.◌∷◌ d s) =
    let rest = strip p s in if code c == code d then rest else none

-- strings.TrimPrefix
unfoldable pub trim_prefix : String → String → String
unfolding strip
trim_prefix s p = get_or (strip p s) s

module _ (H : Host) where
  abbrev pub stat_of : String → Action H.World Stat
  stat_of path w = (ok (H.stat path w).0, (H.stat path w).1)

  -- RemoveSnapshot
  unfoldable pub remove_snapshot : LocalNetwork H → String → Action H.World (Unit {0})
  unfolding stat_result
  remove_snapshot ln name = do
    found ← stat_of (snapshot_dir H ln name)
    lift (stat_result snapshot_not_found found)
    H.remove_all (snapshot_dir H ln name)

  -- GetSnapshotNames
  unfoldable pub get_snapshot_names : LocalNetwork H → Action H.World (List String)
  unfolding stat_result trim_prefix
  get_snapshot_names ln = do
    found ← stat_of ln.snapshots_dir
    lift (stat_result (external "snapshots dir") found)
    matches ← H.glob (H.join ln.snapshots_dir (snapshot_prefix <> "*"))
    pure (map (λ match. trim_prefix (H.base match) snapshot_prefix) matches)
