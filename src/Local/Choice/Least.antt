-- ===== src/Local/Choice/Least.antt =====
-- `getNode` picks a running node with the least API port.
use mathlib.Core.Path.{subst}
use netrunner.Prelude.{
  ℕ, ◌≤◌, ◌<◌, false, ◌≡◌, ◌⊎◌, inl, inr, refl, [], ◌∷◌, none, some, All, arith, ap, ◌∙◌,
}
use netrunner.Prelude.Dict.{Dict}
use netrunner.Host.{Host}
use netrunner.Local.Types.{LocalNode}
use netrunner.Local.Choice.{Candidate, better, best, choose_node}

abbrev pub Contains : {H : Host} → LocalNode H → Dict (LocalNode H) → Type 0
Contains m [] = ⊥
Contains m ((name, n) ∷ nodes) = (n ≡ m) ⊎ Contains m nodes

-- no running node of the network has a port below `port`
abbrev pub NoneBelow : {H : Host} → ℕ → Dict (LocalNode H) → Type 0
NoneBelow port nodes = All (λ e. e.1.paused ≡ false → port ≤ e.1.api_port) nodes

-- One round keeps the candidate, or takes the node because it runs.
abbrev Takes : {H : Host} → LocalNode H → Candidate H → Candidate H → Type 0
Takes n c d =
    (d ≡ c)
    ⊎ ((n.paused ≡ false)
        × (d.node ≡ some n)
        × (d.min_port ≡ n.api_port)
        × (n.api_port < c.min_port))

better_lem :
    (H : Host) (n : LocalNode H) (c : Candidate H)
    → ((better H n c).min_port ≤ c.min_port)
      × (n.paused ≡ false → (better H n c).min_port ≤ n.api_port)
      × Takes n c (better H n c)
unfolding better
better_lem H n c = (ground arith, λ h. ground arith, ground arith)

best_lem :
    (H : Host) (nodes : Dict (LocalNode H)) (c : Candidate H)
    → ((best H nodes c).min_port ≤ c.min_port)
      × NoneBelow (best H nodes c).min_port nodes
      × ((best H nodes c ≡ c)
          ⊎ ((m : LocalNode H) × Contains m nodes
              × (m.paused ≡ false)
              × ((best H nodes c).node ≡ some m)
              × ((best H nodes c).min_port ≡ m.api_port)
              × (m.api_port < c.min_port)))
unfolding best
best_lem H [] c = (omega arith, tt, inl refl)
best_lem H ((name, n) ∷ nodes) c =
    let (least, none_below, found) = best_lem H nodes (better H n c) in
    let (smaller, below, takes) = better_lem H n c in
    (
      omega (arith, least, smaller),
      ((λ running. omega (arith, least, below running)), none_below),
      elim found [
        | inr (m, there, running, node, port, under) ↦
            inr (m, inr there, running, node, port, omega (arith, under, smaller))
        | inl same ↦ elim takes [
          | inl kept ↦ inl (same ∙ kept)
          | inr (running, node, port, under) ↦
              inr (n, inl refl, running, cc (same, node), cc (same, port), under)
        ]
      ],
    )

-- `getNode` picks a running node of the network with an API port below 65535, and none that runs has
-- a smaller port; or it finds none, and then no running node has an API port below 65535, the highest
-- one.
pub choose_node_lem :
    (H : Host) (nodes : Dict (LocalNode H))
    → ((choose_node H nodes ≡ none) × NoneBelow 65535 nodes)
      ⊎ ((m : LocalNode H) × (choose_node H nodes ≡ some m)
          × Contains m nodes
          × (m.paused ≡ false)
          × (m.api_port < 65535)
          × NoneBelow m.api_port nodes)
unfolding choose_node
choose_node_lem H nodes =
    let (least, none_below, found) = best_lem H nodes (record { min_port = 65535; node = none }) in
    elim found [
      | inl same ↦ inl (
        ap (λ (c : Candidate H). c.node) same,
        subst (λ (c : Candidate H). NoneBelow c.min_port nodes) same none_below,
      )
      | inr (m, there, running, node, port, under) ↦
          inr (m, node, there, running, under, subst (λ x. NoneBelow x nodes) port none_below)
    ]
