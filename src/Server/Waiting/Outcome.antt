-- ===== src/Server/Waiting/Outcome.antt =====
-- What WaitForHealthy answers, and that it does.
use netrunner.Prelude.{
  Bool, true, false, ◌≡◌, ◌||◌, List, [], ◌∷◌, none, some, is_some, arith, Option-cases, inl, inr,
  Bool-cases,
}
use netrunner.Prelude.Action.{ok, Result-cases}
use netrunner.Host.{Host}
use netrunner.Server.Types.{ClusterInfo}
use netrunner.Server.Runner.{Runner}
use netrunner.Server.State.{Server}
use netrunner.Server.Waiting.{Answer, Round, look, select, wait_for_healthy}

abbrev pub some_done : {H : Host} {R : Runner H} → List (Round H R) → Bool
some_done [] = false
some_done (r ∷ rs) = r.is_done || some_done rs

look-done :
    (H : Host) (R : Runner H) (r : Round H R) (s : Server H R)
    → r.is_done ≡ true
    → is_some (look H R r s.cluster_info s).0 ≡ true
unfolding look select
look-done H R r s d = ground arith

-- Whatever other requests do in between, the handler answers at the latest in the round in which its
-- context is done.
pub wait_ends :
    (H : Host) (R : Runner H) (rs : List (Round H R)) (s : Server H R)
    → some_done rs ≡ true
    → is_some (wait_for_healthy H R rs s).0 ≡ true
unfolding wait_for_healthy
wait_ends H R [] s d = cc
wait_ends H R (r ∷ rs) s d = elim (Option-cases (look H R r s.cluster_info s).0) [
  | inr (a, e) ↦ ground (arith, e)
  | inl e ↦ elim (Bool-cases r.is_done) [
    | inl h ↦ ground (arith, look-done H R r s h, e)
    | inr h ↦
        let later =
          wait_ends H R rs (r.others (look H R r s.cluster_info s).1) (ground (arith, h, d)) in
        ground (arith, e, later)
  ]
]

-- A copy of a cluster info that reports its chains as healthy.
abbrev pub IsHealthyCopy : {H : Host} → Runner H → Answer → Type 0
IsHealthyCopy {H} R a =
    (i : ClusterInfo) × (w : H.World) × (c : ClusterInfo) × (i.custom_chains_healthy ≡ true)
    × ((R.json_copy i w).0 ≡ ok c)
    × (a.cluster ≡ some c)

look-healthy :
    (H : Host) (R : Runner H) (r : Round H R) (s : Server H R) (a : Answer)
    → (look H R r s.cluster_info s).0 ≡ some a
    → a.error ≡ none
    → IsHealthyCopy R a
unfolding look select
look-healthy H R r s a h n = elim (Option-cases s.cluster_info) [
  | inl e ↦ absurd (ground (arith, e))
  | inr (i, e) ↦ elim (Bool-cases i.custom_chains_healthy) [
    | inl good ↦ elim (Result-cases (R.json_copy i s.world).0) [
      | inl (c, made) ↦ (i, s.world, c, good, made, ground (arith, e, good, made, h))
      | inr (x, failed) ↦ absurd (ground (arith, e, good, failed, h, n))
    ]
    | inr bad ↦ absurd (ground (arith, e, bad))
  ]
]

-- An answer without an error is a copy of a cluster info that reports its chains as healthy, whatever
-- other requests do in between.
pub wait_sound :
    (H : Host) (R : Runner H) (rs : List (Round H R)) (s : Server H R) (a : Answer)
    → (wait_for_healthy H R rs s).0 ≡ some a
    → a.error ≡ none
    → IsHealthyCopy R a
unfolding wait_for_healthy
wait_sound H R [] s a h n = absurd cc
wait_sound H R (r ∷ rs) s a h n = elim (Option-cases (look H R r s.cluster_info s).0) [
  | inr (b, e) ↦ look-healthy H R r s a (ground (arith, e, h)) n
  | inl e ↦ wait_sound H R rs (r.others (look H R r s.cluster_info s).1) a (ground (arith, e, h)) n
]
