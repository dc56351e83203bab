-- ===== src/Local/Snapshots/Stored.antt =====
-- The file that `SaveSnapshot` leaves.

use netrunner.Prelude.{String, ◌≡◌, ◌≢◌, inl, inr, List, Option, some, arith, str_eq, Bool-cases}
use netrunner.Prelude.Action.{ok, for_each, Result-cases}
use netrunner.Prelude.Pairs.{Pairwise}
use netrunner.Host.{Host}
use netrunner.Config.{NodeConfig}
use netrunner.Local.Types.{LocalNetwork, State}
use netrunner.Local.Ops.{stop}
use netrunner.Local.Snapshots.{Codec, snapshot_dir, db_dir, network_file, state_file}
use netrunner.Local.Snapshots.Save.{
  values, saved_configs, save_snapshot, write_snapshot, saved_network, save_db, db_dirs, is_present,
}
use netrunner.Local.Snapshots.Saved.{PortKeysApart, SavedFrom, saved_configs-Pairwise}

-- Files as the program sees them: what was written to one is read from it, and testing whether
-- there is a file, or writing another one, changes nothing of it.
pub record FileLaws (H : Host) : Type 0 where
  pub contents : String → H.World → Option String
  pub written :
      (path text : String) (w : H.World)
      → (H.create_and_write path text w).0 ≡ ok tt
      → contents path (H.create_and_write path text w).1 ≡ some text
  pub others :
      (path other text : String) (w : H.World)
      → path ≢ other
      → contents path (H.create_and_write other text w).1 ≡ contents path w
  pub stat :
      (path other : String) (w : H.World) → contents path (H.stat other w).1 ≡ contents path w
  pub read :
      (path text found : String) (w : H.World)
      → contents path w ≡ some text
      → (H.read_file path w).0 ≡ ok found
      → found ≡ text

write_snapshot_lem :
    (H : Host) (L : FileLaws H) (J : Codec) (ln : LocalNetwork H) (name dir : String)
    (cs : List NodeConfig) (w : H.World)
    → network_file H ln name ≢ state_file H ln name
    → (write_snapshot H J ln name cs w).0 ≡ ok dir
    → L.contents (network_file H ln name) (write_snapshot H J ln name cs w).1
      ≡ some (J.marshal_config (saved_network H ln cs))
unfolding write_snapshot
write_snapshot_lem H L J ln name dir cs w apart h =
    let net = network_file H ln name in
    let text = J.marshal_config (saved_network H ln cs) in
    let texts = J.marshal_texts ln.subnet_id_to_elastic_subnet_id in
    let m1 = H.mkdir_all (db_dir H ln name) w in
    let m2 = for_each (save_db H ln name (db_dirs H ln.nodes)) cs m1.1 in
    let m3 = H.create_and_write net text m2.1 in
    elim (Result-cases m1.0) [
      | inr (e, a) ↦ absurd (ground arith)
      | inl (u, a) ↦ elim (Result-cases m2.0) [
        | inr (e, b) ↦ absurd (ground arith)
        | inl (v, b) ↦ elim (Result-cases m3.0) [
          | inr (e, c) ↦ absurd (ground arith)
          | inl (x, c) ↦ ground (
            arith,
            L.written net text m2.1 c,
            L.others net (state_file H ln name) texts m3.1 apart,
          )
        ]
      ]
    ]

-- A saved snapshot: what was made of the nodes, and the file that holds it.
pub record IsSaved (H : Host) (L : FileLaws H) (J : Codec) (name : String) (s : State H)
    : Type 0 where
  pub configs : List NodeConfig
  pub made : saved_configs H s.network.nodes ≡ ok configs
  pub pairs : Pairwise (SavedFrom H) (values s.network.nodes) configs
  pub file :
      L.contents (network_file H s.network name) (save_snapshot H J name s).1.world
      ≡ some (J.marshal_config (saved_network H s.network configs))

pub save_snapshot-IsSaved :
    (H : Host) (L : FileLaws H) (J : Codec) (name dir : String) (s : State H)
    → PortKeysApart H
    → network_file H s.network name ≢ state_file H s.network name
    → (save_snapshot H J name s).0 ≡ ok dir
    → IsSaved H L J name s
unfolding save_snapshot
save_snapshot-IsSaved H L J name dir s apart files h = elim (Bool-cases s.network.stopping) [
  | inl e ↦ absurd (ground arith)
  | inr e ↦ elim (Bool-cases (str_eq name "")) [
    | inl f ↦ absurd (ground arith)
    | inr f ↦
        let looked = H.stat (snapshot_dir H s.network name) s.world in
        let s1 : State H = record s { world = looked.1 } in
        elim (Bool-cases (is_present looked.0)) [
          | inl g ↦ absurd (ground arith)
          | inr g ↦ elim (Result-cases (saved_configs H s.network.nodes)) [
            | inr (x, a) ↦ absurd (ground arith)
            | inl (cs, a) ↦ elim (Result-cases (stop H s1).0) [
              | inr (x, b) ↦ absurd (ground arith)
              | inl (u, b) ↦
                  let w = (stop H s1).1.world in
                  record {
                    configs = cs;
                    made = a;
                    pairs = saved_configs-Pairwise H s.network.nodes cs apart a;
                    file = ground (arith, write_snapshot_lem H L J s.network name dir cs w files);
                  }
            ]
          ]
        ]
  ]
]
