-- ===== src/Prelude/Pairs.antt =====
-- Lists of the same length whose members are related one by one.
use mathlib.Core.Path.{◌≡◌, refl, sym}
use mathlib.Core.Logic.{inl, inr}
use mathlib.Core.List.{List, [], ◌∷◌, map}
use native.Mathlib.Omega.{arith}
use netrunner.Prelude.Lists.{length, All}
use netrunner.Prelude.Action.{Result, ok, Action, for_all, collect, Result-cases}

abbrev pub Pairwise : {A B : Type 0} → (A → B → Type 0) → List A → List B → Type 0
Pairwise R [] [] = Unit
Pairwise R [] (y ∷ ys) = ⊥
Pairwise R (x ∷ xs) [] = ⊥
Pairwise R (x ∷ xs) (y ∷ ys) = R x y × Pairwise R xs ys

module _ {A B : Type 0} where
  pub Pairwise-length :
      (R : A → B → Type 0) (xs : List A) (ys : List B) → Pairwise R xs ys → length ys ≡ length xs
  Pairwise-length R [] [] p = refl
  Pairwise-length R [] (y ∷ ys) p = absurd p
  Pairwise-length R (x ∷ xs) [] p = absurd p
  Pairwise-length R (x ∷ xs) (y ∷ ys) p = omega (arith, Pairwise-length R xs ys p.1)

  pub Pairwise-map :
      (R S : A → B → Type 0)
      → ((x : A) (y : B) → R x y → S x y)
      → (xs : List A) (ys : List B) → Pairwise R xs ys
      → Pairwise S xs ys
  Pairwise-map R S f [] [] p = tt
  Pairwise-map R S f [] (y ∷ ys) p = absurd p
  Pairwise-map R S f (x ∷ xs) [] p = absurd p
  Pairwise-map R S f (x ∷ xs) (y ∷ ys) p = (f x y p.0, Pairwise-map R S f xs ys p.1)

  pub Pairwise-fun : (f : A → B) (xs : List A) → Pairwise (λ x y. y ≡ f x) xs (map f xs)
  Pairwise-fun f [] = tt
  Pairwise-fun f (x ∷ xs) = (refl, Pairwise-fun f xs)

  -- the second list has a property, member by member
  pub Pairwise-All :
      (R : A → B → Type 0) (P : B → Type 0) (xs : List A) (ys : List B)
      → Pairwise R xs ys
      → All P ys
      → Pairwise (λ x y. R x y × P y) xs ys
  Pairwise-All R P [] [] p all = tt
  Pairwise-All R P [] (y ∷ ys) p all = absurd p
  Pairwise-All R P (x ∷ xs) [] p all = absurd p
  Pairwise-All R P (x ∷ xs) (y ∷ ys) p all = ((p.0, all.0), Pairwise-All R P xs ys p.1 all.1)

  pub collect-Pairwise :
      (f : A → Result B) (xs : List A) (ys : List B)
      → collect f xs ≡ ok ys
      → Pairwise (λ x y. f x ≡ ok y) xs ys
  unfolding collect
  collect-Pairwise f [] [] h = tt
  collect-Pairwise f [] (y ∷ ys) h = absurd (ground arith)
  collect-Pairwise f (x ∷ xs) ys h = elim (Result-cases (f x)) [
    | inr (e, a) ↦ absurd (ground arith)
    | inl (b, a) ↦ elim (Result-cases (collect f xs)) [
      | inr (e, c) ↦ absurd (ground arith)
      | inl (bs, c) ↦
          let shape : b ∷ bs ≡ ys = ground arith in rw (sym shape) (a, collect-Pairwise f xs bs c)
    ]
  ]

  pub for_all-Pairwise :
      {S : Type 0} (f : A → Action S B) (xs : List A) (s : S) (ys : List B)
      → (for_all f xs s).0 ≡ ok ys
      → Pairwise (λ x y. (t : S) × ((f x t).0 ≡ ok y)) xs ys
  unfolding for_all
  for_all-Pairwise f [] s [] h = tt
  for_all-Pairwise f [] s (y ∷ ys) h = absurd (ground arith)
  for_all-Pairwise f (x ∷ xs) s ys h = elim (Result-cases (f x s).0) [
    | inr (e, a) ↦ absurd (ground arith)
    | inl (b, a) ↦ elim (Result-cases (for_all f xs (f x s).1).0) [
      | inr (e, c) ↦ absurd (ground arith)
      | inl (bs, c) ↦
          let shape : b ∷ bs ≡ ys = ground arith in
          rw (sym shape) ((s, a), for_all-Pairwise f xs (f x s).1 bs c)
    ]
  ]

pub Pairwise-then :
    {A B C : Type 0} (R : A → B → Type 0) (S : B → C → Type 0) (T : A → C → Type 0)
    → ((x : A) (y : B) (z : C) → R x y → S y z → T x z)
    → (xs : List A) (ys : List B) (zs : List C) → Pairwise R xs ys
    → Pairwise S ys zs
    → Pairwise T xs zs
Pairwise-then R S T f [] [] [] p q = tt
Pairwise-then R S T f [] [] (z ∷ zs) p q = absurd q
Pairwise-then R S T f [] (y ∷ ys) zs p q = absurd p
Pairwise-then R S T f (x ∷ xs) [] zs p q = absurd p
Pairwise-then R S T f (x ∷ xs) (y ∷ ys) [] p q = absurd q
Pairwise-then R S T f (x ∷ xs) (y ∷ ys) (z ∷ zs) p q =
    (f x y z p.0 q.0, Pairwise-then R S T f xs ys zs p.1 q.1)

-- A member of the list in between is related to both.
abbrev pub Chained : {A B C : Type 0} → (A → B → Type 0) → (B → C → Type 0) → A → C → Type 0
Chained {B = B} R S x z = (y : B) × R x y × S y z

pub Pairwise-Chained :
    {A B C : Type 0} (R : A → B → Type 0) (S : B → C → Type 0) (xs : List A) (ys : List B)
    (zs : List C)
    → Pairwise R xs ys
    → Pairwise S ys zs
    → Pairwise (Chained R S) xs zs
Pairwise-Chained R S xs ys zs p q =
    Pairwise-then R S (Chained R S) (λ x y z r s. (y, r, s)) xs ys zs p q
