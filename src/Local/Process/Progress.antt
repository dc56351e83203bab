-- ===== src/Local/Process/Progress.antt =====
-- Once a process has ended, the calls of `Stop` come to an end.
use netrunner.Prelude.{
  ℕ, zero, suc, ◌+◌, ◌*◌, ◌<◌, ◌≡◌, ◌⊎◌, inl, inr, some, arith, refl, if◌then◌else◌, Bool-cases,
}
use netrunner.Local.Process.{Status, Process, Step, Reachable}
use netrunner.Local.Process.Invariant.{IsSound, Reachable-IsSound}

-- What is left to do: the steps of each caller, and the one of `awaitExit`.
abbrev pub work : Process → ℕ
work p =
    (if p.awaited then 1 else 0) + p.blocked + 2 * p.selecting + 3 * p.signalling + 4 * p.entering

pub data Steps : Process → Process → Type 0 where
  done : (p : Process) → Steps p p
  next : (p q r : Process) → Step p q → Steps q r → Steps p r

ℕ-cases : (n : ℕ) → (n ≡ 0) ⊎ ((m : ℕ) × (n ≡ suc m))
ℕ-cases zero = inl refl
ℕ-cases (suc m) = inr (m, refl)

-- A step that is not a new call, and leaves less to do.
abbrev Advances : Process → Type 0
Advances p = (q : Process) × Step p q × (work q < work p) × (q.exited ≡ p.exited)

status-cases : (s : Status) → (s ≡ Status.running) ⊎ ((s ≡ Status.stopping) ⊎ (s ≡ Status.stopped))
status-cases Status.running = inl refl
status-cases Status.stopping = inr (inl refl)
status-cases Status.stopped = inr (inr refl)

enters : (p : Process) (n code : ℕ) → p.entering ≡ suc n → p.exited ≡ some code → Advances p
enters p n code e x = elim (status-cases p.status) [
  | inl r ↦ (_, Step.begin p n e r, ground (arith, e), refl)
  | inr (inl r) ↦ (_, Step.already_stopping p n e r, ground (arith, e), refl)
  | inr (inr r) ↦ (_, Step.already_stopped p n code e r x, ground (arith, e), refl)
]

advances : (p : Process) (code : ℕ) → IsSound p → p.exited ≡ some code → (work p ≡ 0) ⊎ Advances p
advances p code i x = elim (Bool-cases p.awaited) [
  | inl a ↦ inr (_, Step.await_exit p code a x, ground (arith, a), refl)
  | inr a ↦ elim (ℕ-cases p.entering) [
    | inr (n, e) ↦ inr (enters p n code e x)
    | inl e ↦ elim (ℕ-cases p.signalling) [
      | inr (n, s) ↦ inr (_, Step.interrupt p n s, ground (arith, s), refl)
      | inl s ↦ elim (ℕ-cases p.selecting) [
        | inr (n, l) ↦ inr (_, Step.select p n l, ground (arith, l), refl)
        | inl l ↦ elim (ℕ-cases p.blocked) [
          | inr (n, b) ↦
              inr
                (_, Step.finish p n code b (ground (arith, a, i.closed)) x, ground (arith, b), refl)
          | inl b ↦ inl (ground (arith, a, e, s, l, b))
        ]
      ]
    ]
  ]
]

drains_within :
    (fuel code : ℕ) (p : Process)
    → work p < fuel
    → Reachable p
    → p.exited ≡ some code
    → (q : Process) × Steps p q × (work q ≡ 0)
drains_within zero code p h r x = absurd (omega arith)
drains_within (suc fuel) code p h r x = elim (advances p code (Reachable-IsSound p r) x) [
  | inl over ↦ (p, Steps.done p, over)
  | inr (q, s, less, same) ↦
      let (t, ss, over) =
        drains_within fuel code q (omega arith) (Reachable.there p q r s) (cc (same, x)) in
      (t, Steps.next p q t s ss, over)
]

-- From every state that is reached, once the process has ended, there are steps after which nothing is
-- left to do: `awaitExit` has returned, and so has every call of `Stop`.
pub Reachable-drains :
    (p : Process) (code : ℕ)
    → Reachable p
    → p.exited ≡ some code
    → (q : Process) × Steps p q × (work q ≡ 0)
Reachable-drains p code r x = drains_within (suc (work p)) code p (omega arith) r x
