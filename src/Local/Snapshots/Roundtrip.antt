-- ===== src/Local/Snapshots/Roundtrip.antt =====
-- A network that is saved and loaded again has the same nodes.

use mathlib.Core.Path.{subst}
use netrunner.Prelude.{
  ◌<>◌, String, false, ◌≡◌, ◌≢◌, ◌∙◌, refl, ap, inl, inr, List, [], ◌∷◌, some, arith, str_eq,
  length, map, Bool-cases,
}
use netrunner.Prelude.Action.{ok}
use netrunner.Prelude.Dict.{Dict, lookup}
use netrunner.Prelude.Pairs.{
  Pairwise, Pairwise-All, Pairwise-fun, Pairwise-length, Pairwise-Chained,
}
use netrunner.Host.{Host}
use netrunner.Config.{NodeConfig}
use netrunner.Local.Types.{LocalNode, State}
use netrunner.Local.Ops.Invariant.{HostLaws, IsValid}
use netrunner.Local.Load.{load_config}
use netrunner.Local.Load.Outcome.{Stands}
use netrunner.Local.Load.Whole.{load_config_cases}
use netrunner.Local.Snapshots.{Codec, network_file, state_file, snapshot_prefix}
use netrunner.Local.Snapshots.Save.{values, saved_configs, saved_network, save_snapshot}
use netrunner.Local.Snapshots.Load.{Overrides, load_snapshot}
use netrunner.Local.Snapshots.Stored.{FileLaws, save_snapshot-IsSaved}
use netrunner.Local.Snapshots.Loaded.{load_snapshot-IsLoaded}
use netrunner.Local.Snapshots.Recovered.{
  json_node, json_config, Decodes, Recovered, KeysApart, Links, one-Recovered,
}

values-length : {V : Type 0} (m : Dict V) → length (values m) ≡ length m
unfolding values
values-length [] = refl
values-length ((k, v) ∷ m) = ground (arith, values-length m)

-- the partner of the node that stands under `k`
Pairwise-lookup :
    {V C : Type 0} (R : V → C → Type 0) (m : Dict V) (cs : List C) (k : String) (v : V)
    → Pairwise R (values m) cs
    → lookup k m ≡ some v
    → (c : C) × R v c
unfolding values lookup
Pairwise-lookup R [] cs k v p h = absurd (cc)
Pairwise-lookup R ((j, x) ∷ m) [] k v p h = absurd p
Pairwise-lookup R ((j, x) ∷ m) (c ∷ cs) k v p h = elim (Bool-cases (str_eq j k)) [
  | inl e ↦ let same : x ≡ v = ground arith in (c, subst (λ y. R y c) same p.0)
  | inr e ↦ Pairwise-lookup R m cs k v p.1 (ground arith)
]

-- A network `t` into which the snapshot of `s` can be loaded: new, with the same snapshots
-- directory, and with ports that are not reassigned; and nobody wrote to the snapshot's file.
pub record IsFresh (H : Host) (L : FileLaws H) (J : Codec) (name : String) (s t : State H)
    : Type 0 where
  pub empty : t.network.nodes ≡ []
  pub place : t.network.snapshots_dir ≡ s.network.snapshots_dir
  pub fixed : t.network.reassign_ports_if_used ≡ false
  pub kept :
      L.contents (network_file H s.network name) t.world
      ≡ L.contents (network_file H s.network name) (save_snapshot H J name s).1.world

-- Saving a network whose nodes are valid and loading the snapshot into a new network, both with
-- success, gives a network with as many nodes, all running: each node that was saved, running or
-- paused, is there again under its name, with its ID and its ports, and with the database directory
-- to which the snapshot's database was copied. This holds where ports are not reassigned and the
-- caller gives none, the keys of the flags differ, nobody writes to the snapshot in between, files
-- are read as they were written, and JSON gives back the configuration with the ports as numbers.
pub snapshot-roundtrip :
    (H : Host) (laws : HostLaws H) (L : FileLaws H) (J : Codec) (name dir : String) (o : Overrides)
    (s t : State H)
    → KeysApart H o
    → network_file H s.network name ≢ state_file H s.network name
    → IsValid H s.network.nodes
    → ((cs : List NodeConfig)
        → saved_configs H s.network.nodes ≡ ok cs
        → Decodes H J (saved_network H s.network cs))
    → (save_snapshot H J name s).0 ≡ ok dir
    → IsFresh H L J name s t
    → (load_snapshot H J name o t).0 ≡ ok tt
    → let u = (load_snapshot H J name o t).1.network in
      (length u.nodes ≡ length s.network.nodes)
      × ((k : String) (n : LocalNode H)
          → lookup k s.network.nodes ≡ some n
          → (m : LocalNode H) × (lookup k u.nodes ≡ some m) × Recovered H t.network.root_dir n m)
unfolding saved_network
snapshot-roundtrip H laws L J name dir o s t keys files valid json saves fresh loads =
    let saved = save_snapshot-IsSaved H L J name dir s keys.saved files saves in
    let decodes = json saved.configs saved.made in
    let text = J.marshal_config (saved_network H s.network saved.configs) in
    let c = json_config decodes.json (saved_network H s.network saved.configs) in
    let same : network_file H t.network name ≡ network_file H s.network name =
      ap (λ x. H.join (H.join x (snapshot_prefix <> name)) "network.json") fresh.place in
    let loaded =
      load_snapshot-IsLoaded H L J name o text c t keys.renamed
        (ap (λ x. L.contents x t.world) same ∙ fresh.kept ∙ saved.file) decodes.decoded loads in
    elim (load_config_cases H laws loaded.config loaded.start
      (ground (arith, loaded.frame, fresh.empty))) [
        | inr (e, failed, gone) ↦ absurd (ground (arith, loaded.loads))
        | inl (fine, ok_nodes, running, count, stand, id, reassign) ↦
            let b = (load_config H loaded.config loaded.start).1.network in
            let u = (load_snapshot H J name o t).1.network in
            let ends : b ≡ u = ap (λ x. x.1.network) loaded.loads in
            let ds = loaded.config.node_configs in
            let nodes = values s.network.nodes in
            let decoded = map (json_node decodes.json) saved.configs in
            let pairs : Pairwise (Links H t.network b o decodes.json) nodes ds =
              Pairwise-All _ (Stands H b) nodes ds
                (Pairwise-Chained _ _ nodes saved.configs ds saved.pairs (
                  Pairwise-Chained _ _ saved.configs decoded ds
                    (Pairwise-fun (json_node decodes.json) saved.configs) loaded.restored))
                stand in
            (
              ground (
                arith,
                ends,
                count,
                Pairwise-length _ nodes ds pairs,
                values-length s.network.nodes,
              ),
              λ k n there.
                  let (d, links) = Pairwise-lookup _ s.network.nodes ds k n pairs there in
                  let (at, placed) = valid k n there in
                  let (m, here, recovered) =
                    one-Recovered H t.network b o decodes.json n d keys decodes.ports
                      (ground (arith, reassign, loaded.frame, fresh.fixed)) placed links in
                  (m, ground (arith, ends, here, recovered.name, at), recovered),
            )
      ]
