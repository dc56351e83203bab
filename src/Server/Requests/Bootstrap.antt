-- ===== src/Server/Requests/Bootstrap.antt =====
-- server/server.go: a start succeeds as a whole or leaves no network behind.
use netrunner.Prelude.{
  true, false, ◌≡◌, refl, List, Option, none, some, arith, is_some, Option-cases, Bool-cases, inl,
  inr, ltb, get_or,
}
use netrunner.Prelude.Action.{is_ok, Result-cases}
use netrunner.Host.{Host}
use netrunner.Server.Types.{ClusterInfo, BlockchainSpec}
use netrunner.Server.Runner.{Runner}
use netrunner.Server.State.{Server, network_of, update_cluster_info, stop_and_remove_network}
use netrunner.Server.Lifecycle
use netrunner.Server.Lifecycle.{StartRequest}

-- encoding/json takes a ClusterInfo apart and puts it together again without an error.
abbrev pub CopiesAlways : {H : Host} → Runner H → Type 0
CopiesAlways {H} R = (i : ClusterInfo) (w : H.World) → is_ok (R.json_copy i w).0 ≡ true

-- The server has a network, and reports the nodes and subnets of it and everything as healthy.
abbrev Serving : {H : Host} (R : Runner H) → Option R.Network → Option ClusterInfo → Type 0
Serving R (some n) (some i) =
    (i.healthy ≡ true)
    × (i.custom_chains_healthy ≡ true)
    × (i.node_infos ≡ R.node_infos n)
    × (i.subnets ≡ R.subnets n)
Serving R n none = ⊥
Serving R none i = ⊥

abbrev pub IsServing : {H : Host} {R : Runner H} → Server H R → Type 0
IsServing {H} {R} s = Serving R s.network s.cluster_info

bring_up-outcome :
    (H : Host) (R : Runner H) (specs : List BlockchainSpec) (s : Server H R)
    → CopiesAlways R
    → is_some s.network ≡ true
    → is_some s.cluster_info ≡ true
    → (is_ok (Lifecycle.bring_up H R specs s).0 ≡ true
        → IsServing (Lifecycle.bring_up H R specs s).1)
      × (is_ok (Lifecycle.bring_up H R specs s).0 ≡ false
          → (Lifecycle.bring_up H R specs s).1.network ≡ none)
unfolding Lifecycle.bring_up update_cluster_info stop_and_remove_network
bring_up-outcome H R specs s copies n c = elim (Option-cases s.network) [
  | inl e ↦ (λ h. absurd (cc), λ h. absurd cc)
  | inr (m, e) ↦ elim (Option-cases s.cluster_info) [
    | inl e' ↦ (λ h. absurd (cc), λ h. absurd cc)
    | inr (i, e') ↦
        let begun = R.start (record { network = m; world = s.world }) in
        elim (Result-cases begun.0) [
          | inr (x, bad) ↦ rw (e, e', bad) (λ h. absurd cc, λ h. refl)
          | inl (_, good) ↦
              let made = R.create_chains specs begun.1 in
              elim (Result-cases made.0) [
                | inr (x, bad) ↦ rw (e, e', good, bad) (λ h. absurd cc, λ h. refl)
                | inl (ids, good') ↦
                    let copied = copies (network_of H R made.1.network i) made.1.world in
                    elim (Result-cases
                      (R.json_copy (network_of H R made.1.network i) made.1.world).0) [
                        | inr (x, bad) ↦ absurd (ground arith)
                        | inl (j, good'') ↦
                            rw (e, e', good, good', good'')
                              (λ h. (refl, refl, refl, refl), λ h. absurd cc)
                      ]
              ]
        ]
  ]
]

-- Where there is no network, and copies of the cluster info never fail, Start either succeeds,
-- and then the server reports a healthy cluster with the nodes and subnets of the network that it
-- started, or fails and leaves no network.
pub start-all_or_nothing :
    (H : Host) (R : Runner H) (req : StartRequest) (s : Server H R)
    → CopiesAlways R
    → s.network ≡ none
    → (is_ok (Lifecycle.start H R req s).0 ≡ true → IsServing (Lifecycle.start H R req s).1)
      × (is_ok (Lifecycle.start H R req s).0 ≡ false → (Lifecycle.start H R req s).1.network ≡ none)
unfolding Lifecycle.start
start-all_or_nothing H R req s copies e =
    elim (Bool-cases (ltb (get_or req.num_nodes Lifecycle.default_nodes) Lifecycle.min_nodes)) [
      | inl few ↦ rw (e, few) (λ h. absurd cc, λ h. refl)
      | inr many ↦ elim (Result-cases (Lifecycle.prepare H R req s.world).0) [
        | inr (x, failed) ↦ rw (e, many, failed) (λ h. absurd cc, λ h. refl)
        | inl (made, prepared) ↦
            let options =
              Lifecycle.start_options s.redirect_nodes_output s.snapshots_dir made.1 req in
            elim (Result-cases
              (R.new_local_network options (Lifecycle.prepare H R req s.world).1).0) [
                | inr (x, bad) ↦ rw (e, many, prepared, bad) (λ h. absurd cc, λ h. refl)
                | inl (n, good) ↦
                    rw (e, many, prepared, good) (bring_up-outcome H R made.0 _ copies refl refl)
              ]
      ]
    ]
