-- ===== src/Local/Ops/Invariant.antt =====
-- What holds of every node of a network, after any history of calls.
use mathlib.Core.Path.{subst}
use netrunner.Prelude.{
  String, Bool, true, false, ◌≡◌, ◌≢◌, ◌∙◌, refl, sym, inl, inr, List, [], ◌∷◌, some, arith, str_eq,
  eq_iff, if◌then◌else◌, not, Option-cases, Bool-cases,
}
use netrunner.Prelude.Action.{ok, err, network_stopped, when, Action, after, Result-cases}
use netrunner.Prelude.Dict.{Dict, lookup, insert, lookup-insert}
use netrunner.Host.{Host}
use netrunner.Config.{NodeConfig}
use netrunner.Local.Types.{LocalNode, LocalNetwork, State}
use netrunner.Local.Ports.Bounds.{BoundsPorts, get_port_sound}
use netrunner.Local.Names.Unique.{set_node_name_sound, set_node_name-ne-nil}
use netrunner.Local.Add.{
  add_node, complete_config, on_world, with_defaults, with_staking_files, with_signing_key,
}
use netrunner.Local.Add.Cases.{Started, add_node_stages, launch_sound}
use netrunner.Local.Add.Completed.{launch-IsMade}
use netrunner.Local.Ops.{
  unless_stopping, close_stop_channel, Changes, add_node_method, remove_node_method,
  pause_node_method, resume_node, restart_node, stop_method, stop, remove_node, pause_node,
  share_maps, resumed_config, restarted_config,
}
use netrunner.Local.Ops.Steps.{remove_node_lem, pause_node_lem, if_stops, stop_empties}
use netrunner.Local.Ops.Resume.{IsPlaced}
use netrunner.Local.Ops.Stopped.{Call, add, remove, pause, resume, restart, stop_it, call, run}

-- What the code relies on outside the program.
pub record HostLaws (H : Host) : Type 0 where
  pub ports : BoundsPorts H
  -- a staking certificate and its key are never empty
  pub staking :
      (w : H.World) (made : String × String)
      → (H.new_cert_and_key w).0 ≡ ok made
      → (made.0 ≢ "") × (made.1 ≢ "")

-- Every node stands under its own name, which is that of its configuration and not empty; its
-- configuration holds staking files, its ID is that of these files, and its ports fit 16 bits.
abbrev pub IsValid : (H : Host) → Dict (LocalNode H) → Type 0
IsValid H nodes =
    (k : String) (n : LocalNode H) → lookup k nodes ≡ some n → (n.name ≡ k) × IsPlaced H n

module _ (H : Host) (laws : HostLaws H) where
  completed-staked :
      (ln : LocalNetwork H) (c c' : NodeConfig) (w : H.World)
      → (complete_config H ln c w).0 ≡ ok c'
      → (c'.staking_key ≢ "") × (c'.staking_cert ≢ "")
  unfolding complete_config with_defaults with_staking_files with_signing_key
  completed-staked ln c c' w h = elim (Result-cases (H.new_cert_and_key w).0) [
    | inr (x, e) ↦ (
      λ e1. ground (arith, eq_iff c.staking_key "", eq_iff c.staking_cert ""),
      λ e1. ground (arith, eq_iff c.staking_key "", eq_iff c.staking_cert ""),
    )
    | inl (made, e) ↦
        let nonempty = laws.staking w made e in
        (
          λ e1. ground (arith, nonempty, eq_iff c.staking_key "", eq_iff c.staking_cert ""),
          λ e1. ground (arith, nonempty, eq_iff c.staking_key "", eq_iff c.staking_cert ""),
        )
  ]

  Started-IsPlaced :
      (c : NodeConfig) (s : State H) (m : LocalNode H) → Started H c s m → IsPlaced H m
  Started-IsPlaced c s m d =
      let s1 = after (on_world H (complete_config H s.network c)) s in
      let named = set_node_name_sound H d.completed d.named s1 d.names in
      let staked = completed-staked s.network c d.completed s.world d.completes in
      let shape = launch_sound H s.network d.named d.launches.0 m d.launches.1 in
      let is_made = launch-IsMade H s.network d.named d.launches.0 m d.launches.1 in
      let built = is_made.built in
      record {
        named = ground (arith, shape);
        nonempty =
            λ e. set_node_name-ne-nil H d.completed d.named s1 d.names (ground (arith, shape));
        keyed = λ e. staked.0 (ground (arith, shape, named));
        certified = λ e. staked.1 (ground (arith, shape, named));
        identified = ground (arith, shape);
        api_port =
            ground (arith, is_made.shape, get_port_sound H laws.ports _ _ _ _ _ _ built.api_port.1);
        p2p_port =
            ground (arith, is_made.shape, get_port_sound H laws.ports _ _ _ _ _ _ built.p2p_port.1);
      }

  -- A node that is put under its name keeps the others valid.
  insert-IsValid :
      (nodes : Dict (LocalNode H)) (m : LocalNode H)
      → IsPlaced H m
      → IsValid H nodes
      → IsValid H (insert m.name m nodes)
  insert-IsValid nodes m placed valid k n there = elim (Bool-cases (str_eq m.name k)) [
    | inl e ↦
        let same : m ≡ n = ground (arith, lookup-insert m.name k m nodes) in
        subst (λ x. (x.name ≡ k) × IsPlaced H x) same ((eq_iff m.name k).0 e, placed)
    | inr e ↦ valid k n (ground (arith, lookup-insert m.name k m nodes))
  ]

  pub add_node-IsValid :
      (c : NodeConfig) (s : State H)
      → IsValid H s.network.nodes
      → IsValid H (add_node H c s).1.network.nodes
  add_node-IsValid c s valid = elim (add_node_stages H c s) [
    | inl (e, failed, same) ↦ subst (λ (ln : LocalNetwork H). IsValid H ln.nodes) (sym same) valid
    | inr (m, d) ↦
        subst (λ (ln : LocalNetwork H). IsValid H ln.nodes) (sym d.added)
          (insert-IsValid s.network.nodes m (Started-IsPlaced c s m d) valid)
  ]

  remove_node-IsValid :
      (name : String) (s : State H)
      → IsValid H s.network.nodes
      → IsValid H (remove_node H name s).1.network.nodes
  remove_node-IsValid name s valid k n there =
      valid k n (ground (arith, (remove_node_lem H name s).0 k))

  paused-IsPlaced : (w : H.World) (n : LocalNode H) → IsPlaced H n → IsPlaced H (if_stops H w n)
  paused-IsPlaced w n p = ground arith

  pause_node-IsValid :
      (name : String) (s : State H)
      → IsValid H s.network.nodes
      → IsValid H (pause_node H name s).1.network.nodes
  pause_node-IsValid name s valid k n there = elim (Option-cases (lookup name s.network.nodes)) [
    | inl e ↦ valid k n (ground (arith, (pause_node_lem H name s).0 k))
    | inr (m, e) ↦ elim (Bool-cases (str_eq name k)) [
      | inl same ↦
          let (named, placed) = valid name m e in
          let now : if_stops H s.world m ≡ n = ground (arith, (pause_node_lem H name s).0 k) in
          subst (λ x. (x.name ≡ k) × IsPlaced H x) now
            (ground (arith, named, eq_iff name k), paused-IsPlaced s.world m placed)
      | inr other ↦ valid k n (ground (arith, (pause_node_lem H name s).0 k))
    ]
  ]

  share_maps-IsValid :
      (name : String) (n : LocalNode H) (c : NodeConfig) (s : State H)
      → lookup name s.network.nodes ≡ some n
      → (c.name ≡ n.config.name)
        × (c.staking_key ≡ n.config.staking_key)
        × (c.staking_cert ≡ n.config.staking_cert)
      → IsValid H s.network.nodes
      → IsValid H (share_maps H name n c s).network.nodes
  share_maps-IsValid name n c s there same valid =
      let (named, placed) = valid name n there in
      let m : LocalNode H = record n { config = record c { binary_path = n.config.binary_path } } in
      subst (λ k. IsValid H (insert k m s.network.nodes)) named
        (insert-IsValid s.network.nodes m
          (record {
            named = same.0 ∙ placed.named;
            nonempty = placed.nonempty;
            keyed = λ e. placed.keyed (sym same.1 ∙ e);
            certified = λ e. placed.certified (sym same.2 ∙ e);
            identified = ground (arith, placed.identified);
            api_port = placed.api_port;
            p2p_port = placed.p2p_port;
          })
          valid)

  resume_node-IsValid :
      (name : String) (s : State H)
      → IsValid H s.network.nodes
      → IsValid H (resume_node H name s).1.network.nodes
  unfolding resume_node
  resume_node-IsValid name s valid = elim (Option-cases (lookup name s.network.nodes)) [
    | inl e ↦ rw e valid
    | inr (n, e) ↦ elim (Bool-cases n.paused) [
      | inr running ↦ rw (e, running) valid
      | inl paused ↦
          let c = resumed_config H n in
          let s1 = share_maps H name n c s in
          let last : (add_node H c s1).1 ≡ (resume_node H name s).1 = ground arith in
          subst (λ (t : State H). IsValid H t.network.nodes) last
            (add_node-IsValid c s1 (share_maps-IsValid name n c s e (refl, refl, refl) valid))
    ]
  ]

  when_removed-IsValid :
      (b : Bool) (name : String) (s : State H)
      → IsValid H s.network.nodes
      → IsValid H (when b (remove_node H name) s).1.network.nodes
  when_removed-IsValid true name s valid = remove_node-IsValid name s valid
  when_removed-IsValid false name s valid = valid

  restart_node-IsValid :
      (name : String) (ch : Changes) (s : State H)
      → IsValid H s.network.nodes
      → IsValid H (restart_node H name ch s).1.network.nodes
  unfolding restart_node
  restart_node-IsValid name ch s valid = elim (Option-cases (lookup name s.network.nodes)) [
    | inl e ↦ rw e valid
    | inr (n, e) ↦
        let c = restarted_config H n ch in
        let s1 = share_maps H name n c s in
        let removed = when (not n.paused) (remove_node H name) s1 in
        let s2 = removed.1 in
        let kept =
          when_removed-IsValid (not n.paused) name s1
            (share_maps-IsValid name n c s e (refl, refl, refl) valid) in
        elim (Result-cases removed.0) [
          | inr (x, failed) ↦
              let last : s2 ≡ (restart_node H name ch s).1 = ground arith in
              subst (λ (t : State H). IsValid H t.network.nodes) last kept
          | inl (x, gone) ↦
              let last : (add_node H c s2).1 ≡ (restart_node H name ch s).1 = ground arith in
              subst (λ (t : State H). IsValid H t.network.nodes) last (add_node-IsValid c s2 kept)
        ]
  ]

  IsValid-nil : IsValid H []
  unfolding lookup
  IsValid-nil k n there = cc

  unless_stopping-IsValid :
      {A : Type 0} (m : Action (State H) A) (s : State H)
      → IsValid H s.network.nodes
      → IsValid H (m s).1.network.nodes
      → IsValid H (unless_stopping H m s).1.network.nodes
  unless_stopping-IsValid m s before done =
      elim s.network.stopping
        as (λ b. IsValid H (if b then (err network_stopped, s) else m s).1.network.nodes) [
          | true ↦ before
          | false ↦ done
        ]

  pub call-IsValid :
      (c : Call) (s : State H) → IsValid H s.network.nodes → IsValid H (call H c s).1.network.nodes
  unfolding call add_node_method remove_node_method pause_node_method stop_method
  call-IsValid (add c) s valid =
      unless_stopping-IsValid (add_node H c) s valid (add_node-IsValid c s valid)
  call-IsValid (remove name) s valid =
      unless_stopping-IsValid (remove_node H name) s valid (remove_node-IsValid name s valid)
  call-IsValid (pause name) s valid =
      unless_stopping-IsValid (pause_node H name) s valid (pause_node-IsValid name s valid)
  call-IsValid (resume name) s valid = resume_node-IsValid name s valid
  call-IsValid (restart name ch) s valid = restart_node-IsValid name ch s valid
  call-IsValid stop_it s valid =
      unless_stopping-IsValid (λ t. stop H (close_stop_channel H t)) s valid
        (rw stop_empties IsValid-nil)

  -- From a network whose nodes are valid, every history of calls of AddNode, RemoveNode, PauseNode,
  -- ResumeNode, RestartNode and Stop, failed ones included, leads to one whose nodes are valid: each stands under its own name, which is not empty and that of its
  -- configuration, has staking files and the ID that belongs to them, and ports that fit 16 bits.
  -- This relies on new staking files that are never empty, and on random and converted ports that
  -- are in range.
  pub run-IsValid :
      (cs : List Call) (s : State H)
      → IsValid H s.network.nodes
      → IsValid H (run H cs s).network.nodes
  unfolding run
  run-IsValid [] s valid = valid
  run-IsValid (c ∷ cs) s valid = run-IsValid cs (call H c s).1 (call-IsValid c s valid)
