-- ===== src/Local/Snapshots/Outcomes.antt =====
-- The outcomes of `SaveSnapshot`, `loadSnapshot` and `RemoveSnapshot`, errors included.
use netrunner.Prelude.{
  String, true, false, ◌≡◌, ◌⊎◌, inl, inr, ap, sym, ◌∙◌, [], arith, str_eq, eq_iff, Bool-cases,
}
use netrunner.Prelude.Action.{
  ok, err, is_ok, Result-cases, network_stopped, invalid_snapshot_name, snapshot_exists,
  snapshot_not_found,
}
use netrunner.Prelude.Dict.{keys}
use netrunner.Host.{Host, present, absent}
use netrunner.Utils.{stat_result}
use netrunner.Local.Types.{LocalNetwork, State}
use netrunner.Local.Ops.{stop}
use netrunner.Local.Ops.Steps.{stop_empties, stop_all-frame}
use netrunner.Local.Snapshots.{Codec, snapshot_dir}
use netrunner.Local.Snapshots.Save.{save_snapshot, saved_configs, is_present}
use netrunner.Local.Snapshots.Load.{Overrides, load_snapshot}
use netrunner.Local.Snapshots.Names.{remove_snapshot}

-- Nothing but the nodes and the beacons differs, and there are no nodes.
abbrev pub Emptied : {H : Host} → LocalNetwork H → LocalNetwork H → Type 0
Emptied a b = (b.nodes ≡ []) × (b ≡ record a { nodes = b.nodes; bootstraps = b.bootstraps })

stop-Emptied : (H : Host) (s : State H) → Emptied s.network (stop H s).1.network
unfolding stop
stop-Emptied H s = (stop_empties H s, ground (arith, stop_all-frame H (keys s.network.nodes) s))

-- A call of SaveSnapshot either fails and leaves the network as it was, or stops it: then no node is
-- left, whether the snapshot was written or not. It is refused, with the network as it was, on a
-- network that was stopped, without a name, and with the name of a snapshot that exists.
pub save_snapshot_cases :
    (H : Host) (J : Codec) (name : String) (s : State H)
    → let r = save_snapshot H J name s in
      (((is_ok r.0 ≡ false) × (r.1.network ≡ s.network)) ⊎ Emptied s.network r.1.network)
      × (s.network.stopping ≡ true → r ≡ (err network_stopped, s))
      × (s.network.stopping ≡ false → name ≡ "" → r ≡ (err invalid_snapshot_name, s))
      × (s.network.stopping ≡ false
          → str_eq name "" ≡ false
          → (H.stat (snapshot_dir H s.network name) s.world).0 ≡ present
          → (r.0 ≡ err snapshot_exists) × (r.1.network ≡ s.network))
unfolding save_snapshot
save_snapshot_cases H J name s = (
  either,
  λ down. ground arith,
  λ up unnamed. ground (arith, eq_iff name ""),
  λ up named exists. (ground arith, ground arith),
)
  where
    either :
        let r = save_snapshot H J name s in
        ((is_ok r.0 ≡ false) × (r.1.network ≡ s.network)) ⊎ Emptied s.network r.1.network
    either = elim (Bool-cases s.network.stopping) [
      | inl e ↦ inl (ground arith, ground arith)
      | inr e ↦ elim (Bool-cases (str_eq name "")) [
        | inl f ↦ inl (ground arith, ground arith)
        | inr f ↦
            let looked = H.stat (snapshot_dir H s.network name) s.world in
            let s1 : State H = record s { world = looked.1 } in
            elim (Bool-cases (is_present looked.0)) [
              | inl g ↦ inl (ground arith, ground arith)
              | inr g ↦ elim (Result-cases (saved_configs H s.network.nodes)) [
                | inr (x, a) ↦ inl (ground arith, ground arith)
                | inl (cs, a) ↦
                    let stopped = stop-Emptied H s1 in
                    elim (Result-cases (stop H s1).0) [
                      | inr (x, b) ↦ inr (ground (arith, stopped), ground (arith, stopped))
                      | inl (u, b) ↦ inr (ground (arith, stopped), ground (arith, stopped))
                    ]
              ]
            ]
      ]
    ]

load_snapshot-absent :
    (H : Host) (J : Codec) (name : String) (o : Overrides) (s : State H)
    → (H.stat (snapshot_dir H s.network name) s.world).0 ≡ absent
    → ((load_snapshot H J name o s).0 ≡ err snapshot_not_found)
      × ((load_snapshot H J name o s).1.network ≡ s.network)
unfolding load_snapshot stat_result
load_snapshot-absent H J name o s gone = (ground arith, ground arith)

remove_snapshot-absent :
    (H : Host) (ln : LocalNetwork H) (name : String) (w : H.World)
    → (H.stat (snapshot_dir H ln name) w).0 ≡ absent
    → (remove_snapshot H ln name w).0 ≡ err snapshot_not_found
unfolding remove_snapshot stat_result
remove_snapshot-absent H ln name w gone = ground arith

-- a removal that succeeds found the snapshot and removed its directory
remove_snapshot-removed :
    (H : Host) (ln : LocalNetwork H) (name : String) (w : H.World)
    → (remove_snapshot H ln name w).0 ≡ ok tt
    → let looked = H.stat (snapshot_dir H ln name) w in
      (looked.0 ≡ present)
      × (remove_snapshot H ln name w ≡ H.remove_all (snapshot_dir H ln name) looked.1)
unfolding remove_snapshot stat_result
remove_snapshot-removed H ln name w removed = (ground arith, ground arith)

-- Where a directory that was removed without an error is not found afterwards: RemoveSnapshot succeeds
-- only if the snapshot was there, and then loading the snapshot of that name, with the network as it
-- is then, fails with ErrSnapshotNotFound and leaves the network as it was, and removing it again
-- fails with that error too.
pub remove_snapshot-gone :
    (H : Host) (J : Codec) (name : String) (o : Overrides) (s : State H)
    → let dir = snapshot_dir H s.network name in
      ((w : H.World)
        → (H.remove_all dir w).0 ≡ ok tt
        → (H.stat dir (H.remove_all dir w).1).0 ≡ absent)
      → (remove_snapshot H s.network name s.world).0 ≡ ok tt
      → let t : State H = record s { world = (remove_snapshot H s.network name s.world).1 } in
        ((H.stat dir s.world).0 ≡ present)
        × ((load_snapshot H J name o t).0 ≡ err snapshot_not_found)
        × ((load_snapshot H J name o t).1.network ≡ s.network)
        × ((remove_snapshot H s.network name t.world).0 ≡ err snapshot_not_found)
remove_snapshot-gone H J name o s law removed =
    let dir = snapshot_dir H s.network name in
    let (there, ran) = remove_snapshot-removed H s.network name s.world removed in
    let t : State H = record s { world = (remove_snapshot H s.network name s.world).1 } in
    let after_look = (H.stat dir s.world).1 in
    let gone : (H.stat dir t.world).0 ≡ absent =
      ap (λ r. (H.stat dir r.1).0) ran ∙ law after_look (sym (ap (λ r. r.0) ran) ∙ removed) in
    let (failed, same) = load_snapshot-absent H J name o t gone in
    (there, failed, same, remove_snapshot-absent H s.network name t.world gone)
