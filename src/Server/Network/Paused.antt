-- ===== src/Server/Network/Paused.antt =====
-- server/network.go: what `awaitHealthyAndUpdateNetworkInfo` does where every node is paused.
use netrunner.Prelude.{
  String, Bool, true, false, ◌≡◌, refl, ap, ◌∙◌, List, [], ◌∷◌, Option, none, some, arith,
  if◌then◌else◌, inl, inr,
}
use netrunner.Prelude.Action.{
  Action, ok, err, panic, network_stopped, for_each, or_raise, refuse_if, Result-cases, ◌>>=◌, ◌>>◌,
  continue,
}
use netrunner.Prelude.Dict.{Dict}
use netrunner.Host.{Host}
use netrunner.Local.Types.{LocalNode, LocalNetwork, State}
use netrunner.Local.Ops.{get_all_nodes}
use netrunner.Local.Ports.{max_port}
use netrunner.Local.Choice.{Candidate, better, best, choose_node}
use netrunner.Local.Chains.{Api}
use netrunner.Local.Chains.Healthy.{to_check, wait_all, healthy}
use netrunner.Server.Network.{
  Kept, get_flag, noted, note_node, describe_nodes, generate_prometheus_conf, update_node_info,
}
use netrunner.Server.Network.Subnets.{PChain, on_network, update_subnet_info, await_healthy}

module _ {S B : Type 0} where
  ran-then :
      (m : Action S (Unit {0})) (n : Action S B) (s t : S) → m s ≡ (ok tt, t) → (m >> n) s ≡ n t
  ran-then m n s t e = ap (λ done. continue done.0 (λ _. n) done.1) e

  passed-then :
      (m : Action S (Unit {0})) (n : Action S B) (s : S) → (m s).0 ≡ ok tt → (m >> n) s ≡ n (m s).1
  passed-then m n s e = ap (λ r. continue r (λ _. n) (m s).1) e

module _ (H : Host) where
  abbrev pub all_paused : Dict (LocalNode H) → Bool
  all_paused [] = true
  all_paused ((k, n) ∷ nodes) = if n.paused then all_paused nodes else false

  best-paused :
      (nodes : Dict (LocalNode H)) (c : Candidate H) → all_paused nodes ≡ true → best H nodes c ≡ c
  unfolding best better
  best-paused [] c h = refl
  best-paused ((k, n) ∷ nodes) c h = ground (arith, best-paused nodes c)

  choose_node-paused :
      (nodes : Dict (LocalNode H)) → all_paused nodes ≡ true → choose_node H nodes ≡ none
  unfolding choose_node
  choose_node-paused nodes h =
      ap (λ c. c.node) (best-paused nodes (record { min_port = max_port; node = none }) h)

  note_nodes-network :
      (nodes : Dict (LocalNode H)) (s : Kept H)
      → (for_each (note_node H) nodes s).1.network ≡ s.network
  unfolding for_each note_node noted
  note_nodes-network [] s = refl
  note_nodes-network ((k, n) ∷ nodes) s = elim (Result-cases (get_flag H n H.keys.track_subnets)) [
    | inl (t, e) ↦ rw e (note_nodes-network nodes (noted H k n t s))
    | inr (x, e) ↦ rw e refl
  ]

  describe_nodes-network :
      (nodes : Dict (LocalNode H)) (s : Kept H) → (describe_nodes H nodes s).1.network ≡ s.network
  unfolding describe_nodes generate_prometheus_conf
  describe_nodes-network nodes s =
      let t : Kept H = record s { node_infos = [] } in
      elim (Result-cases (for_each (note_node H) nodes t).0) [
        | inl (u, e) ↦ rw e (note_nodes-network nodes t)
        | inr (x, e) ↦ rw e (note_nodes-network nodes t)
      ]

  unless_stopped-network :
      (b : Bool) (nodes : Dict (LocalNode H)) (s : Kept H)
      → ((refuse_if b network_stopped >> describe_nodes H nodes) s).1.network ≡ s.network
  unless_stopped-network true nodes s = refl
  unless_stopped-network false nodes s = describe_nodes-network nodes s

  from_network-network :
      (o : Option (LocalNetwork H)) (s : Kept H)
      → ((or_raise o panic >>= λ n.
            refuse_if n.stopping network_stopped >> describe_nodes H n.nodes)
          s).1.network
        ≡ s.network
  from_network-network none s = refl
  from_network-network (some ln) s = unless_stopped-network ln.stopping ln.nodes s

  update_node_info-network : (s : Kept H) → (update_node_info H s).1.network ≡ s.network
  unfolding update_node_info
  update_node_info-network s = from_network-network s.network s

  get_all_nodes-running :
      (s : Kept H) (ln : LocalNetwork H)
      → s.network ≡ some ln
      → ln.stopping ≡ false
      → (on_network H (get_all_nodes H) s).0 ≡ ok ln.nodes
  unfolding on_network get_all_nodes
  get_all_nodes-running s ln there running = rw (there, running) refl

  -- the state, with the network of it written out
  abbrev pub holding : LocalNetwork H → Kept H → Kept H
  holding ln s = record s { network = some ln }

module _ (H : Host) (A : Api H) (P : PChain H) where
  update_subnet_info-paused :
      (s : Kept H) (ln : LocalNetwork H)
      → s.network ≡ some ln
      → ln.stopping ≡ false
      → all_paused H ln.nodes ≡ true
      → (update_subnet_info H A P s).0 ≡ err panic
  unfolding update_subnet_info
  update_subnet_info-paused s ln there running paused =
      rw (get_all_nodes-running H s ln there running, choose_node-paused H ln.nodes paused) refl

  to_check-paused :
      (nodes : Dict (LocalNode H)) → all_paused H nodes ≡ true → to_check H A nodes ≡ []
  unfolding to_check
  to_check-paused [] h = refl
  to_check-paused ((k, n) ∷ nodes) h = ground (arith, to_check-paused nodes)

  wait_all-nil : (events : List String) (w : H.World) → wait_all H A events [] w ≡ (ok tt, w)
  unfolding wait_all
  wait_all-nil [] w = refl
  wait_all-nil (e ∷ es) w = refl

  healthy-paused :
      (s : State H)
      → s.network.stopping ≡ false
      → all_paused H s.network.nodes ≡ true
      → healthy H A s ≡ (ok tt, s)
  unfolding healthy
  healthy-paused s running paused =
      ap
        (λ b.
          if b
          then (err network_stopped, s)
          else (let done = wait_all H A (A.turns s.world) (to_check H A s.network.nodes) s.world in
              (done.0, record s { world = done.1 })))
        running
      ∙ ap
          (λ nodes.
            let done = wait_all H A (A.turns s.world) nodes s.world in
            (done.0, record s { world = done.1 }))
          (to_check-paused s.network.nodes paused)
      ∙ ap (λ done. (done.0, record s { world = done.1 })) (wait_all-nil (A.turns s.world) s.world)

  on_network-healthy :
      (s : Kept H) (ln : LocalNetwork H)
      → ln.stopping ≡ false
      → all_paused H ln.nodes ≡ true
      → on_network H (healthy H A) (holding H ln s) ≡ (ok tt, holding H ln s)
  unfolding on_network
  on_network-healthy s ln running paused =
      ap (λ done. (done.0, record s { network = some done.1.network; world = done.1.world }))
        (healthy-paused (record { network = ln; world = s.world }) running paused)

  -- Where the server's network was not stopped and all its nodes are paused, and the information on
  -- the nodes is updated without an error, waiting for health panics: the check of health passes, and
  -- then a method of a node that was never set is called.
  pub await_healthy-paused :
      (s : Kept H) (ln : LocalNetwork H)
      → ln.stopping ≡ false
      → all_paused H ln.nodes ≡ true
      → (update_node_info H (holding H ln s)).0 ≡ ok tt
      → (await_healthy H A P (holding H ln s)).0 ≡ err panic
  unfolding await_healthy
  await_healthy-paused s ln running paused updated =
      let u = (update_node_info H (holding H ln s)).1 in
      ap (λ done. done.0)
        (ran-then (on_network H (healthy H A)) (update_node_info H >> update_subnet_info H A P)
            (holding H ln s) (holding H ln s) (on_network-healthy s ln running paused)
          ∙ passed-then (update_node_info H) (update_subnet_info H A P) (holding H ln s) updated)
      ∙ update_subnet_info-paused u ln (update_node_info-network H (holding H ln s)) running paused
