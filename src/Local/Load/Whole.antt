-- ===== src/Local/Load/Whole.antt =====
-- `loadConfig` as a whole: a network with a node for each configuration, or an empty one.
use netrunner.Prelude.{
  ◌+◌, Bool, true, false, ◌≡◌, ◌⊎◌, refl, inl, inr, List, [], ◌∷◌, ◌++◌, arith, if◌then◌else◌,
  length, length-append, All,
}
use netrunner.Prelude.Action.{ok, err, Error, Result-cases}
use netrunner.Prelude.Dict.{lookup}
use netrunner.Host.{Host}
use netrunner.Config.{NodeConfig, NetworkConfig}
use netrunner.Config.Network
use netrunner.Local.Types.{State}
use netrunner.Local.Add.{add_node}
use netrunner.Local.Ops.Steps.{stop_empties}
use netrunner.Local.Ops.Invariant.{HostLaws, IsValid, add_node-IsValid}
use netrunner.Local.Load.{
  add_all, load_config, with_mark, beacons_first, set_genesis, set_network_id, set_defaults,
}
use netrunner.Local.Load.Outcome.{AllRunning, Stands, add_all-Filled, add_all_fails}

All-append : {A : Type 0} (P : A → Type 0) (xs ys : List A) → All P (xs ++ ys) → All P xs × All P ys
All-append P [] ys all = (tt, all)
All-append P (x ∷ xs) ys all = let (l, r) = All-append P xs ys all.1 in ((all.0, l), r)

All-either :
    {A : Type 0} (P : A → Type 0) (b : Bool) (x : A) (xs ys : List A)
    → All P (if b then x ∷ xs else xs)
    → All P (if b then ys else x ∷ ys)
    → P x × All P xs × All P ys
All-either P true x xs ys l r = (l.0, l.1, r)
All-either P false x xs ys l r = (r.0, l, r.1)

All-with_mark :
    (P : NodeConfig → Type 0) (cs : List NodeConfig)
    → All P (with_mark true cs)
    → All P (with_mark false cs)
    → All P cs
unfolding with_mark
All-with_mark P [] l r = tt
All-with_mark P (c ∷ cs) l r =
    let (here, marked, others) =
      All-either P c.is_beacon c (with_mark true cs) (with_mark false cs) l r in
    (here, All-with_mark P cs marked others)

length-with_mark :
    (cs : List NodeConfig) → length (with_mark true cs) + length (with_mark false cs) ≡ length cs
unfolding with_mark
length-with_mark [] = refl
length-with_mark (c ∷ cs) = ground (arith, length-with_mark cs)

module _ (H : Host) (laws : HostLaws H) where
  add_all-IsValid :
      (cs : List NodeConfig) (s : State H)
      → IsValid H s.network.nodes
      → IsValid H (add_all H cs s).1.network.nodes
  unfolding add_all lookup
  add_all-IsValid [] s valid = valid
  add_all-IsValid (c ∷ cs) s valid = elim (Result-cases (add_node H c s).0) [
    | inr (e, x) ↦
        rw (add_all, x) (rw (stop_empties H (add_node H c s).1) (λ k n there. absurd (cc)))
    | inl (n, x) ↦
        rw (add_all, x) (add_all-IsValid cs (add_node H c s).1 (add_node-IsValid H laws c s valid))
  ]

  -- A network with no nodes that loads a configuration with success has a running node for each
  -- node's configuration, as that says, and no other; all nodes are valid, the network's ID is that
  -- of the genesis, and whether ports are reassigned is as before. If it fails, the network has no
  -- node. This relies on the same about the host as the validity of nodes.
  pub load_config_cases :
      (c : NetworkConfig) (s : State H)
      → s.network.nodes ≡ []
      → let t = (load_config H c s).1.network in
        (((load_config H c s).0 ≡ ok tt)
          × IsValid H t.nodes
          × AllRunning t.nodes
          × (length t.nodes ≡ length c.node_configs)
          × All (Stands H t) c.node_configs
          × (Network.network_id_from_genesis H c.genesis ≡ ok t.network_id)
          × (t.reassign_ports_if_used ≡ s.network.reassign_ports_if_used))
        ⊎ ((e : Error) × ((load_config H c s).0 ≡ err e) × (t.nodes ≡ []))
  unfolding load_config beacons_first lookup set_defaults
  load_config_cases c s empty = elim (Result-cases (Network.validate H c)) [
    | inr (e, x) ↦ rw x (inr (e, refl, empty))
    | inl (u, x) ↦ elim (Result-cases (Network.network_id_from_genesis H c.genesis)) [
      | inr (e, y) ↦ rw (x, y) (inr (e, refl, empty))
      | inl (id, y) ↦
          let cs = beacons_first c.node_configs in
          let s1 = set_defaults H c (set_network_id H id (set_genesis H c.genesis s)) in
          elim (Result-cases (add_all H cs s1).0) [
            | inr (e, z) ↦ rw (x, y) (inr (e, z, add_all_fails H cs s1 e z))
            | inl (v, z) ↦
                let filled = add_all-Filled H cs s1 (λ k n there. absurd (ground arith)) z in
                let halves =
                  All-append _ (with_mark true c.node_configs) (with_mark false c.node_configs)
                    filled.stand in
                rw (x, y)
                  (inl (
                    z,
                    add_all-IsValid cs s1 (λ k n there. absurd (ground arith)),
                    filled.running,
                    ground (
                      arith,
                      filled.count,
                      length-with_mark c.node_configs,
                      length-append (with_mark true c.node_configs)
                          (with_mark false c.node_configs),
                    ),
                    All-with_mark _ c.node_configs halves.0 halves.1,
                    ground (arith, filled.frame),
                    ground (arith, filled.frame),
                  ))
          ]
    ]
  ]
