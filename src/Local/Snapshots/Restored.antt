-- ===== src/Local/Snapshots/Restored.antt =====
-- The configurations of nodes that `loadSnapshot` makes of those in the file.
use netrunner.Prelude.{
  String, false, ◌≡◌, refl, sym, inl, inr, List, [], ◌∷◌, Option, none, some, arith, str_eq,
  eq_refl, if◌then◌else◌, or_else, map, Option-cases,
}
use netrunner.Prelude.Action.{ok, Result-cases, collect, for_all}
use netrunner.Prelude.Dict.{Dict, lookup, lookup-put_all}
use netrunner.Prelude.Pairs.{
  Pairwise, Pairwise-fun, Pairwise-map, Chained, Pairwise-Chained, collect-Pairwise,
  for_all-Pairwise,
}
use netrunner.Host.{Host, Value}
use netrunner.Config.{NodeConfig, or_empty}
use netrunner.Local.Types.{LocalNetwork}
use netrunner.Local.Snapshots.Flags.{
  fix_map, fix_node, fix_deprecated_luxd_flags, deprecated_build_dir_key as old_build,
  deprecated_whitelisted_subnets_key as old_subnets,
}
use netrunner.Local.Snapshots.Fixed.{NamesDistinct, fix_deprecated_luxd_flags-lookup}
use netrunner.Local.Snapshots.Load.{
  Overrides, write_flags, flagged, overridden, load_db, plugin_flag, restored_nodes,
}

-- Nothing that loading a snapshot does is about the flag `k`.
pub record Untouched (H : Host) (o : Overrides) (k : String) : Type 0 where
  pub build : str_eq old_build k ≡ false
  pub subnets : str_eq old_subnets k ≡ false
  pub track : str_eq H.keys.track_subnets k ≡ false
  pub plugin : str_eq H.keys.plugin_dir k ≡ false
  pub db : str_eq H.keys.db_path k ≡ false
  pub given : lookup k o.flags ≡ none

-- `d` is `c` with other flags, but the same at `k`.
abbrev SameAt : NodeConfig → NodeConfig → String → Type 0
SameAt c d k = lookup k (or_empty d.flags) ≡ lookup k (or_empty c.flags)

abbrev SameNode : NodeConfig → NodeConfig → Type 0
SameNode c d =
    (d.name ≡ c.name) × (d.staking_key ≡ c.staking_key) × (d.staking_cert ≡ c.staking_cert)

write_flags-lookup :
    (src : Dict Value) (dst out : Option (Dict Value)) (k : String)
    → write_flags src dst ≡ ok out
    → lookup k (or_empty out) ≡ or_else (lookup k src) (lookup k (or_empty dst))
unfolding write_flags lookup
write_flags-lookup [] dst out k h = ground arith
write_flags-lookup (e ∷ src) none out k h = absurd (ground arith)
write_flags-lookup (e ∷ src) (some dst) out k h = ground (arith, lookup-put_all k (e ∷ src) dst)

flagged_lem :
    (src : Dict Value) (c d : NodeConfig)
    → flagged src c ≡ ok d
    → SameNode c d
      × ((k : String)
          → lookup k (or_empty d.flags) ≡ or_else (lookup k src) (lookup k (or_empty c.flags)))
unfolding flagged
flagged_lem src c d h = elim (Result-cases (write_flags src c.flags)) [
  | inr (e, x) ↦ absurd (ground arith)
  | inl (out, x) ↦ (
    (ground arith, ground arith, ground arith),
    λ k. ground (arith, write_flags-lookup src c.flags out k x),
  )
]

fix_node_lem :
    (H : Host) (c d : NodeConfig)
    → NamesDistinct H.keys
    → fix_node H c ≡ ok d
    → SameNode c d × ((k : String) (o : Overrides) → Untouched H o k → SameAt c d k)
unfolding fix_node fix_map lookup
fix_node_lem H c d names h = elim (Option-cases c.flags) [
  | inl e ↦ ((ground arith, ground arith, ground arith), λ k o u. ground arith)
  | inr (flags, e) ↦ elim (Result-cases (fix_deprecated_luxd_flags H flags)) [
    | inr (x, f) ↦ absurd (ground arith)
    | inl (fixed, f) ↦ (
      (ground arith, ground arith, ground arith),
      λ k o u. ground (
        arith,
        u.build,
        u.subnets,
        u.track,
        u.plugin,
        fix_deprecated_luxd_flags-lookup H flags fixed k names f,
      ),
    )
  ]
]

-- What becomes of the configuration `c` of the file.
pub record Restored (H : Host) (ln : LocalNetwork H) (o : Overrides) (c d : NodeConfig)
    : Type 0 where
  pub same : SameNode c d
  pub flags : (k : String) → Untouched H o k → SameAt c d k
  pub db_dir :
      str_eq H.keys.plugin_dir H.keys.db_path ≡ false
      → lookup H.keys.db_path (or_empty d.flags)
        ≡ some (Value.text (H.join (H.join ln.root_dir c.name) "db"))

load_db_lem :
    (H : Host) (ln : LocalNetwork H) (name : String) (c d : NodeConfig) (w : H.World)
    → (load_db H ln name c w).0 ≡ ok d
    → flagged ((H.keys.db_path, Value.text (H.join (H.join ln.root_dir c.name) "db")) ∷ []) c ≡ ok d
unfolding load_db
load_db_lem H ln name c d w h = ground arith

lookup-single :
    (k j : String) (v : Value) → lookup k ((j, v) ∷ []) ≡ (if str_eq j k then some v else none)
unfolding lookup
lookup-single k j v = refl

lookup-plugin_flag :
    (H : Host) (dir k : String)
    → str_eq H.keys.plugin_dir k ≡ false
    → lookup k (plugin_flag H dir) ≡ none
unfolding lookup
lookup-plugin_flag H dir k h = ground arith

-- The five steps for one node.
one-Restored :
    (H : Host) (ln : LocalNetwork H) (name : String) (o : Overrides) (c c1 c2 c3 c4 : NodeConfig)
    (w : H.World)
    → NamesDistinct H.keys
    → fix_node H c ≡ ok c1
    → flagged o.flags c1 ≡ ok c2
    → (load_db H ln name c2 w).0 ≡ ok c3
    → flagged (plugin_flag H o.plugin_dir) c3 ≡ ok c4
    → Restored H ln o c (overridden o c4)
unfolding overridden
one-Restored H ln name o c c1 c2 c3 c4 w names fixed given placed plugged =
    let target = H.join (H.join ln.root_dir c2.name) "db" in
    let (s1, f1) = fix_node_lem H c c1 names fixed in
    let (s2, f2) = flagged_lem o.flags c1 c2 given in
    let (s3, f3) =
      flagged_lem ((H.keys.db_path, Value.text target) ∷ []) c2 c3
        (load_db_lem H ln name c2 c3 w placed) in
    let (s4, f4) = flagged_lem (plugin_flag H o.plugin_dir) c3 c4 plugged in
    record {
      same = (
        ground (arith, s1, s2, s3, s4),
        ground (arith, s1, s2, s3, s4),
        ground (arith, s1, s2, s3, s4),
      );
      flags = λ k u. ground (
        arith,
        f1 k o u,
        f2 k,
        f3 k,
        f4 k,
        u.given,
        u.db,
        lookup-single k H.keys.db_path (Value.text target),
        lookup-plugin_flag H o.plugin_dir k u.plugin,
      );
      db_dir = λ apart. ground (
        arith,
        s1,
        s2,
        f3 H.keys.db_path,
        f4 H.keys.db_path,
        eq_refl H.keys.db_path,
        lookup-single H.keys.db_path H.keys.db_path (Value.text target),
        lookup-plugin_flag H o.plugin_dir H.keys.db_path apart,
      );
    }

-- The relations between the lists of the five steps.
abbrev Fixes : (H : Host) → NodeConfig → NodeConfig → Type 0
Fixes H c d = fix_node H c ≡ ok d

abbrev FlaggedBy : Dict Value → NodeConfig → NodeConfig → Type 0
FlaggedBy flags c d = flagged flags c ≡ ok d

abbrev Places : (H : Host) → LocalNetwork H → String → NodeConfig → NodeConfig → Type 0
Places H ln name c d = (w : H.World) × ((load_db H ln name c w).0 ≡ ok d)

abbrev OverriddenBy : Overrides → NodeConfig → NodeConfig → Type 0
OverriddenBy o c d = d ≡ overridden o c

abbrev Steps : (H : Host) → LocalNetwork H → String → Overrides → NodeConfig → NodeConfig → Type 0
Steps H ln name o = Chained (Fixes H) (
    Chained (FlaggedBy o.flags) (
      Chained (Places H ln name)
        (Chained (FlaggedBy (plugin_flag H o.plugin_dir)) (OverriddenBy o))))

Steps-Restored :
    (H : Host) (ln : LocalNetwork H) (name : String) (o : Overrides)
    → NamesDistinct H.keys
    → (c d : NodeConfig) → Steps H ln name o c d
    → Restored H ln o c d
Steps-Restored H ln name o names c d
      (c1, fixed, (c2, given, (c3, (w, placed), (c4, plugged, last)))) =
    rw last (one-Restored H ln name o c c1 c2 c3 c4 w names fixed given placed plugged)

-- Every node's configuration of the file is restored, in order.
pub restored_nodes-Pairwise :
    (H : Host) (ln : LocalNetwork H) (name : String) (o : Overrides) (cs ds : List NodeConfig)
    (w : H.World)
    → NamesDistinct H.keys
    → (restored_nodes H ln name o cs w).0 ≡ ok ds
    → Pairwise (Restored H ln o) cs ds
unfolding restored_nodes
restored_nodes-Pairwise H ln name o cs ds w names h =
    elim (Result-cases (collect (fix_node H) cs)) [
      | inr (e, x) ↦ absurd (ground arith)
      | inl (fixed, a) ↦ elim (Result-cases (collect (flagged o.flags) fixed)) [
        | inr (e, x) ↦ absurd (ground arith)
        | inl (given, b) ↦ elim (Result-cases (for_all (load_db H ln name) given w).0) [
          | inr (e, x) ↦ absurd (ground arith)
          | inl (placed, d) ↦
              elim (Result-cases (collect (flagged (plugin_flag H o.plugin_dir)) placed)) [
                | inr (e, x) ↦ absurd (ground arith)
                | inl (plugged, f) ↦
                    let shape : map (overridden o) plugged ≡ ds = ground arith in
                    rw (sym shape) (
                      Pairwise-map _ _ (Steps-Restored H ln name o names) cs _ (
                        Pairwise-Chained _ _ cs fixed _ (collect-Pairwise _ cs fixed a) (
                          Pairwise-Chained _ _ fixed given _ (collect-Pairwise _ fixed given b) (
                            Pairwise-Chained _ _ given placed _
                              (for_all-Pairwise _ given w placed d)
                              (Pairwise-Chained _ _ placed plugged _
                                (collect-Pairwise _ placed plugged f)
                                (Pairwise-fun (overridden o) plugged))))))
              ]
        ]
      ]
    ]
