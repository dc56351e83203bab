-- ===== src/Local/Snapshots/Listed.antt =====
-- The names that `GetSnapshotNames` returns are those under which snapshots were saved.
use text.Mathlib.TextLemmas.{nil-append, cons-append}
use netrunner.Prelude.{String, List, [], ◌∷◌, ◌≡◌, refl, ap, some, ◌<>◌, arith, get_or, map, All}
use netrunner.Prelude.Action.{ok}
use netrunner.Host.{Host, present}
use netrunner.Utils.{stat_result}
use netrunner.Local.Types.{LocalNetwork}
use netrunner.Local.Snapshots.{snapshot_dir, snapshot_prefix}
use netrunner.Local.Snapshots.Names.{strip, trim_prefix, get_snapshot_names}

strip-append : (p s : String) → strip p (p <> s) ≡ some s
unfolding strip
strip-append String.[] s = ap some (nil-append s)
strip-append (String.◌∷◌ c p) s = rw (cons-append c p s, strip) (ground (arith, strip-append p s))

pub trim_prefix-append : (p s : String) → trim_prefix (p <> s) p ≡ s
unfolding trim_prefix
trim_prefix-append p s = ap (λ o. get_or o (p <> s)) (strip-append p s)

trimmed :
    (H : Host) (ln : LocalNetwork H) (names : List String)
    → All (λ name. H.base (snapshot_dir H ln name) ≡ snapshot_prefix <> name) names
    → map (λ match. trim_prefix (H.base match) snapshot_prefix) (map (snapshot_dir H ln) names)
      ≡ names
trimmed H ln [] base = refl
trimmed H ln (name ∷ names) base =
    rw (base.0, trim_prefix-append snapshot_prefix name)
      (ap (λ xs. name ∷ xs) (trimmed H ln names base.1))

-- Where the snapshots directory can be looked at and the files in it that match the pattern are the
-- directories of snapshots with the given names, and the last element of each of these paths is the
-- prefix with the name, GetSnapshotNames returns these names, in the same order.
pub get_snapshot_names_lem :
    (H : Host) (ln : LocalNetwork H) (names : List String) (w : H.World)
    → All (λ name. H.base (snapshot_dir H ln name) ≡ snapshot_prefix <> name) names
    → (H.stat ln.snapshots_dir w).0 ≡ present
    → (H.glob (H.join ln.snapshots_dir (snapshot_prefix <> "*")) (H.stat ln.snapshots_dir w).1).0
      ≡ ok (map (snapshot_dir H ln) names)
    → (get_snapshot_names H ln w).0 ≡ ok names
unfolding get_snapshot_names stat_result
get_snapshot_names_lem H ln names w base there found = ground (arith, trimmed H ln names base)
