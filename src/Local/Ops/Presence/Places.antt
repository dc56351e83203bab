-- ===== src/Local/Ops/Presence/Places.antt =====
-- What `resumeNode` and `restartNode` do to the view.
use mathlib.Core.Path.{subst}
use netrunner.Prelude.{
  String, Bool, true, false, ◌≡◌, ◌≢◌, ◌⊎◌, refl, sym, ap, inl, inr, some, arith, eq_iff,
  Bool-cases, Option-cases,
}
use netrunner.Prelude.Action.{is_ok, Result-cases}
use netrunner.Prelude.Dict.{lookup, lookup-insert}
use netrunner.Host.{Host}
use netrunner.Config.{NodeConfig}
use netrunner.Local.Types.{LocalNode, State}
use netrunner.Local.Add.{add_node}
use netrunner.Local.Ops.{
  Changes, resume_node, restart_node, remove_node, share_maps, resumed_config, restarted_config,
}
use netrunner.Local.Ops.Invariant.{IsValid}
use netrunner.Local.Ops.Stopped.{Call, resume, restart}
use netrunner.Local.Ops.Presence.{
  absent, running, View, view, Same, Put, Allowed, refused, resumed, restarted, lost,
}
use netrunner.Local.Ops.Presence.Views.{add_node-view, remove_node-view}

-- Rewriting the configuration of a node does not change the view.
share_maps-view :
    (H : Host) (k : String) (n : LocalNode H) (c : NodeConfig) (s : State H)
    → lookup k s.network.nodes ≡ some n
    → Same (view H s) (view H (share_maps H k n c s))
share_maps-view H k n c s there j = ground (
  arith,
  eq_iff k j,
  lookup-insert k j (record n { config = record c { binary_path = n.config.binary_path } })
      s.network.nodes,
)

-- A node that is started under the name `k`, where `k` did not run, from a view like `v`.
add_named-view :
    (H : Host) (c : NodeConfig) (k : String) (s : State H) (v : View)
    → c.name ≡ k
    → k ≢ ""
    → Same v (view H s)
    → ((is_ok (add_node H c s).0 ≡ false) × Same v (view H (add_node H c s).1))
      ⊎ Put v k running (view H (add_node H c s).1)
add_named-view H c k s v named nonempty same = elim (add_node-view H c s) [
  | inl (failed, kept) ↦ inl (failed, λ j. ground (arith, kept j, same j))
  | inr (name, fresh, given, put) ↦
      let at : name ≡ k = ground (arith, given (λ e. nonempty (ground arith))) in
      inr (λ j. ground (arith, at, put j, same j))
]

resume_node-add_node :
    (H : Host) (k : String) (s : State H) (n : LocalNode H)
    → lookup k s.network.nodes ≡ some n
    → n.paused ≡ true
    → let started = add_node H (resumed_config H n) (share_maps H k n (resumed_config H n) s) in
      (is_ok (resume_node H k s).0 ≡ is_ok started.0) × ((resume_node H k s).1 ≡ started.1)
unfolding resume_node
resume_node-add_node H k s n e x =
    let s1 = share_maps H k n (resumed_config H n) s in
    elim (Result-cases (add_node H (resumed_config H n) s1).0) [
      | inl (m, y) ↦ (ground arith, ground arith)
      | inr (f, y) ↦ (ground arith, ground arith)
    ]

pub Allowed-rw :
    (v : View) (c : Call) (b b' : Bool) (w w' : View)
    → b ≡ b'
    → w ≡ w'
    → Allowed v c b' w'
    → Allowed v c b w
Allowed-rw v c b b' w w' e f allowed =
    subst (λ x. Allowed v c x w) (sym e) (subst (λ x. Allowed v c b' x) (sym f) allowed)

pub resume_node-Allowed :
    (H : Host) (k : String) (s : State H)
    → IsValid H s.network.nodes
    → Allowed (view H s) (resume k) (is_ok (resume_node H k s).0) (view H (resume_node H k s).1)
unfolding resume_node
resume_node-Allowed H k s valid = elim (Option-cases (lookup k s.network.nodes)) [
  | inl e ↦ rw e (refused _ _ (λ j. refl))
  | inr (n, e) ↦ elim (Bool-cases n.paused) [
    | inr x ↦ rw (e, x) (refused _ _ (λ j. refl))
    | inl x ↦
        let c = resumed_config H n in
        let s1 = share_maps H k n c s in
        let (named, placed) = valid k n e in
        let (result, state) = resume_node-add_node H k s n e x in
        Allowed-rw _ _ _ (is_ok (add_node H c s1).0) _ (view H (add_node H c s1).1) result
          (ap (view H) state)
          (elim (add_named-view H c k s1 (view H s) (ground (arith, placed.named, named))
            (λ empty. placed.nonempty (ground arith)) (share_maps-view H k n c s e)) [
              | inl (failed, same) ↦ rw failed (refused _ _ same)
              | inr put ↦ resumed k _ _ (ground arith) put
            ])
  ]
]

restart_node-add_node :
    (H : Host) (k : String) (ch : Changes) (s : State H) (n : LocalNode H)
    → lookup k s.network.nodes ≡ some n
    → n.paused ≡ true
    → let c = restarted_config H n ch in
      let started = add_node H c (share_maps H k n c s) in
      (is_ok (restart_node H k ch s).0 ≡ is_ok started.0) × ((restart_node H k ch s).1 ≡ started.1)
unfolding restart_node
restart_node-add_node H k ch s n e x =
    let c = restarted_config H n ch in
    elim (Result-cases (add_node H c (share_maps H k n c s)).0) [
      | inl (m, y) ↦ (ground arith, ground arith)
      | inr (f, y) ↦ (ground arith, ground arith)
    ]

-- A running node is removed first; if that fails, the call fails.
restart_node-remove_node :
    (H : Host) (k : String) (ch : Changes) (s : State H) (n : LocalNode H)
    → lookup k s.network.nodes ≡ some n
    → n.paused ≡ false
    → let c = restarted_config H n ch in
      let gone = remove_node H k (share_maps H k n c s) in
      let t = restart_node H k ch s in
      ((is_ok gone.0 ≡ false) × (is_ok t.0 ≡ false) × (t.1 ≡ gone.1))
      ⊎ ((is_ok t.0 ≡ is_ok (add_node H c gone.1).0) × (t.1 ≡ (add_node H c gone.1).1))
unfolding restart_node
restart_node-remove_node H k ch s n e x =
    let c = restarted_config H n ch in
    let gone = remove_node H k (share_maps H k n c s) in
    elim (Result-cases gone.0) [
      | inr (f, y) ↦ inl (ground arith, ground arith, ground arith)
      | inl (u, y) ↦ elim (Result-cases (add_node H c gone.1).0) [
        | inl (m, z) ↦ inr (ground arith, ground arith)
        | inr (f, z) ↦ inr (ground arith, ground arith)
      ]
    ]

restart_running-Allowed :
    (H : Host) (k : String) (ch : Changes) (s : State H) (n : LocalNode H)
    → lookup k s.network.nodes ≡ some n
    → n.paused ≡ false
    → n.config.name ≡ k
    → k ≢ ""
    → Allowed
        (view H s)
        (restart k ch)
        (is_ok (restart_node H k ch s).0)
        (view H (restart_node H k ch s).1)
unfolding restarted_config
restart_running-Allowed H k ch s n e x named nonempty =
    let c = restarted_config H n ch in
    let s1 = share_maps H k n c s in
    let gone = remove_node H k s1 in
    let same = share_maps-view H k n c s e in
    let ran : view H s k ≡ running = ground arith in
    let out : Put (view H s) k absent (view H gone.1) = elim (remove_node-view H k s1) [
      | inl (missing, failed, kept) ↦ absurd (ground (arith, same k))
      | inr (there, result, put) ↦ λ j. ground (arith, put j, same j)
    ] in
    elim (restart_node-remove_node H k ch s n e x) [
      | inl (failed, result, state) ↦
          Allowed-rw _ _ _ false _ (view H gone.1) result (ap (view H) state) (lost k ch _ ran out)
      | inr (result, state) ↦
          Allowed-rw _ _ _ (is_ok (add_node H c gone.1).0) _ (view H (add_node H c gone.1).1) result
            (ap (view H) state)
            (elim (add_named-view H c k gone.1 (view H gone.1) named nonempty (λ j. refl)) [
              | inl (failed, kept) ↦
                  rw failed (lost k ch _ ran (λ j. ground (arith, kept j, out j)))
              | inr put ↦ restarted k ch _ _ (ground arith) (λ j. ground (arith, put j, out j))
            ])
    ]

pub restart_node-Allowed :
    (H : Host) (k : String) (ch : Changes) (s : State H)
    → IsValid H s.network.nodes
    → Allowed
        (view H s)
        (restart k ch)
        (is_ok (restart_node H k ch s).0)
        (view H (restart_node H k ch s).1)
unfolding restart_node restarted_config
restart_node-Allowed H k ch s valid = elim (Option-cases (lookup k s.network.nodes)) [
  | inl e ↦ rw e (refused _ _ (λ j. refl))
  | inr (n, e) ↦
      let (named, placed) = valid k n e in
      let nonempty : k ≢ "" = λ empty. placed.nonempty (ground arith) in
      elim (Bool-cases n.paused) [
        | inr x ↦
            restart_running-Allowed H k ch s n e x (ground (arith, placed.named, named)) nonempty
        | inl x ↦
            let c = restarted_config H n ch in
            let s1 = share_maps H k n c s in
            let (result, state) = restart_node-add_node H k ch s n e x in
            Allowed-rw _ _ _ (is_ok (add_node H c s1).0) _ (view H (add_node H c s1).1) result
              (ap (view H) state)
              (elim (add_named-view H c k s1 (view H s) (ground (arith, placed.named, named))
                nonempty (share_maps-view H k n c s e)) [
                  | inl (failed, kept) ↦ rw failed (refused _ _ kept)
                  | inr put ↦ restarted k ch _ _ (ground arith) put
                ])
      ]
]
