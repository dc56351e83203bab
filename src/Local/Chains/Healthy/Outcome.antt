-- ===== src/Local/Chains/Healthy/Outcome.antt =====
-- No error of `healthy` means that every running node was found healthy.
use netrunner.Prelude.{
  String, false, ◌≡◌, ◌⊎◌, refl, inl, inr, List, [], ◌∷◌, some, arith, str_eq, eq_iff, Option-cases,
  Bool-cases,
}
use netrunner.Prelude.Action.{ok}
use netrunner.Prelude.Dict.{Dict, lookup, remove, lookup-remove}
use netrunner.Host.{Host}
use netrunner.Local.Types.{LocalNode, State}
use netrunner.Local.Chains.{Api}
use netrunner.Local.Chains.Healthy.{Look, dead, sick, well, to_check, look, wait_all, healthy}

Look-cases : (l : Look) → (l ≡ dead) ⊎ ((l ≡ sick) ⊎ (l ≡ well))
Look-cases dead = inl refl
Look-cases sick = inr (inl refl)
Look-cases well = inr (inr refl)

-- the node was found running and healthy at some time
abbrev pub FoundWell : (H : Host) → Api H → LocalNode H → Type 0
FoundWell H A n = (w : H.World) × ((look H A n w).0 ≡ well)

wait_all_sound :
    (H : Host) (A : Api H) (events : List String) (pending : Dict (LocalNode H)) (w : H.World)
    → (wait_all H A events pending w).0 ≡ ok tt
    → (k : String) (n : LocalNode H) → lookup k pending ≡ some n
    → FoundWell H A n
unfolding wait_all lookup
wait_all_sound H A events [] w h k n there = absurd (ground arith)
wait_all_sound H A [] (p ∷ pending) w h k n there = absurd (ground arith)
wait_all_sound H A (e ∷ events) (p ∷ pending) w h k n there =
    elim (Option-cases (lookup e (p ∷ pending))) [
      | inl x ↦ wait_all_sound H A events (p ∷ pending) w (rw (wait_all, x) at h) k n there
      | inr (m, x) ↦ elim (Look-cases (look H A m w).0) [
        | inl y ↦ absurd (ground arith)
        | inr (inl y) ↦
            wait_all_sound H A events (p ∷ pending) (look H A m w).1 (ground arith) k n there
        | inr (inr y) ↦ elim (Bool-cases (str_eq e k)) [
          | inl same ↦ (w, ground (arith, eq_iff e k))
          | inr other ↦
              wait_all_sound H A events (remove e (p ∷ pending)) (look H A m w).1 (ground arith) k n
                (ground (arith, lookup-remove e k (p ∷ pending)))
        ]
      ]
    ]

lookup-to_check :
    (H : Host) (A : Api H) (k : String) (n : LocalNode H) (nodes : Dict (LocalNode H))
    → lookup k nodes ≡ some n
    → n.paused ≡ false
    → lookup k (to_check H A nodes) ≡ some n
unfolding lookup to_check
lookup-to_check H A k n [] there live = absurd (ground arith)
lookup-to_check H A k n ((j, m) ∷ nodes) there live = elim (Bool-cases (str_eq j k)) [
  | inl e ↦ ground arith
  | inr e ↦ ground (arith, lookup-to_check H A k n nodes)
]

-- `healthy` succeeds only on a network that was not stopped, and only if every node that is not
-- paused was found running and healthy at some time, in whatever order the nodes are asked.
pub healthy_sound :
    (H : Host) (A : Api H) (s : State H)
    → (healthy H A s).0 ≡ ok tt
    → (s.network.stopping ≡ false)
      × ((k : String) (n : LocalNode H)
          → lookup k s.network.nodes ≡ some n
          → n.paused ≡ false
          → FoundWell H A n)
unfolding healthy
healthy_sound H A s h = (
  ground arith,
  λ k n there live.
      wait_all_sound H A (A.turns s.world) (to_check H A s.network.nodes) s.world (ground arith) k n
        (lookup-to_check H A k n s.network.nodes there live),
)

-- `healthy` leaves the network as it is.
pub healthy-frame : (H : Host) (A : Api H) (s : State H) → (healthy H A s).1.network ≡ s.network
unfolding healthy
healthy-frame H A s = ground arith
