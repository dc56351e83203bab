-- ===== src/Local/Snapshots/Loaded.antt =====
-- A call of `loadSnapshot` that succeeds: what it read, and the configuration that it loaded.
use netrunner.Prelude.{
  String, ◌≡◌, ◌∙◌, refl, sym, inl, inr, [], ◌∷◌, Option, none, some, arith, Option-cases,
}
use netrunner.Prelude.Action.{ok, for_each, Result-cases, snapshot_not_found}
use netrunner.Prelude.Dict.{Dict}
use netrunner.Prelude.Pairs.{Pairwise}
use netrunner.Host.{Host}
use netrunner.Config.{NetworkConfig}
use netrunner.Utils.{stat_result}
use netrunner.Local.Types.{LocalNetwork, State}
use netrunner.Local.Load.{load_config}
use netrunner.Local.Snapshots.{Codec, snapshot_dir, network_file, state_file}
use netrunner.Local.Snapshots.Fixed.{NamesDistinct}
use netrunner.Local.Snapshots.Flags.{fix_map}
use netrunner.Local.Snapshots.Load.{
  Overrides, restored_config, restored_nodes, load_state, load_elastic, load_snapshot,
}
use netrunner.Local.Snapshots.Restored.{Restored, restored_nodes-Pairwise}
use netrunner.Local.Snapshots.Stored.{FileLaws}

-- The configuration `d` is made of the one in the file, `c`.
restored_config_lem :
    (H : Host) (L : FileLaws H) (J : Codec) (ln : LocalNetwork H) (name : String) (o : Overrides)
    (text : String) (c d : NetworkConfig) (w : H.World)
    → NamesDistinct H.keys
    → L.contents (network_file H ln name) w ≡ some text
    → J.unmarshal_config text ≡ some c
    → (restored_config H J ln name o w).0 ≡ ok d
    → Pairwise (Restored H ln o) c.node_configs d.node_configs
unfolding restored_config
restored_config_lem H L J ln name o text c d w names there decoded h =
    let net = network_file H ln name in
    elim (Result-cases (H.read_file net w).0) [
      | inr (e, a) ↦ absurd (ground arith)
      | inl (found, a) ↦
          let same = L.read net text found w there a in
          let w1 = (H.read_file net w).1 in
          elim (Result-cases (fix_map H c.flags)) [
            | inr (e, b) ↦ absurd (ground arith)
            | inl (flags, b) ↦
                elim (Result-cases (restored_nodes H ln name o c.node_configs w1).0) [
                  | inr (e, f) ↦ absurd (ground arith)
                  | inl (ds, f) ↦
                      let shape : ds ≡ d.node_configs = ground arith in
                      rw (sym shape)
                        (restored_nodes-Pairwise H ln name o c.node_configs ds w1 names f)
                ]
          ]
    ]

-- Loading the state changes the map of elastic subnets only.
abbrev OnlyElastic : (H : Host) → State H → State H → Type 0
OnlyElastic H s t =
    t.network
    ≡ record s.network { subnet_id_to_elastic_subnet_id = t.network.subnet_id_to_elastic_subnet_id }

load_elastic-frame :
    (H : Host) (J : Codec) (entries : Dict String) (s : State H)
    → OnlyElastic H s (for_each (load_elastic H J) entries s).1
unfolding for_each load_elastic
load_elastic-frame H J [] s = refl
load_elastic-frame H J (e ∷ entries) s =
    ground (arith, load_elastic-frame H J entries (load_elastic H J e s).1)

load_state-frame :
    (H : Host) (J : Codec) (file : Option String) (s : State H)
    → OnlyElastic H s (load_state H J file s).1
unfolding load_state
load_state-frame H J none s = refl
load_state-frame H J (some file) s = elim (Option-cases (J.unmarshal_texts file)) [
  | inl e ↦ ground arith
  | inr (entries, e) ↦ ground (
    arith,
    load_elastic-frame H J entries
        (record s { network = record s.network { subnet_id_to_elastic_subnet_id = [] } }),
  )
]

pub record IsLoaded (H : Host) (J : Codec) (c : NetworkConfig) (name : String) (o : Overrides)
    (s : State H) : Type 0 where
  pub config : NetworkConfig
  pub restored : Pairwise (Restored H s.network o) c.node_configs config.node_configs
  pub start : State H
  pub frame : OnlyElastic H s start
  pub loads : load_config H config start ≡ load_snapshot H J name o s

pub load_snapshot-IsLoaded :
    (H : Host) (L : FileLaws H) (J : Codec) (name : String) (o : Overrides) (text : String)
    (c : NetworkConfig) (s : State H)
    → NamesDistinct H.keys
    → L.contents (network_file H s.network name) s.world ≡ some text
    → J.unmarshal_config text ≡ some c
    → (load_snapshot H J name o s).0 ≡ ok tt
    → IsLoaded H J c name o s
unfolding load_snapshot
load_snapshot-IsLoaded H L J name o text c s names there decoded h =
    let looked = H.stat (snapshot_dir H s.network name) s.world in
    let before = L.stat (network_file H s.network name) (snapshot_dir H s.network name) s.world in
    elim (Result-cases (stat_result snapshot_not_found looked.0)) [
      | inr (e, a) ↦ absurd (ground arith)
      | inl (u, a) ↦
          let read = restored_config H J s.network name o looked.1 in
          elim (Result-cases read.0) [
            | inr (e, b) ↦ absurd (ground arith)
            | inl (d, b) ↦
                let state = H.read_optional (state_file H s.network name) read.1 in
                elim (Result-cases state.0) [
                  | inr (e, f) ↦ absurd (ground arith)
                  | inl (file, f) ↦
                      let s1 : State H = record s { world = state.1 } in
                      elim (Result-cases (load_state H J file s1).0) [
                        | inr (e, g) ↦ absurd (ground arith)
                        | inl (v, g) ↦ record {
                          config = d;
                          restored =
                              restored_config_lem H L J s.network name o text c d looked.1 names
                                (before ∙ there) decoded b;
                          start = (load_state H J file s1).1;
                          frame = ground (arith, load_state-frame H J file s1);
                          loads = ground arith;
                        }
                      ]
                ]
          ]
    ]
