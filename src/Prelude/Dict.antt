-- ===== src/Prelude/Dict.antt =====
-- Go's `map[string]V` as an association list. Iteration follows the list; every theorem holds for
-- every list, hence for every order in which Go may iterate.
use Prim.Native.Nat.{suc, ◌≤◌, ◌<◌}
use Prim.Native.String.{String}
use mathlib.Core.Path.{◌≡◌, refl}
use mathlib.Core.Bool.{Bool, true, false}
use mathlib.Core.Option.{Option, none, some}
use mathlib.Core.List.{List, [], ◌∷◌}
use native.Mathlib.Omega.{arith}
use text.Mathlib.Text.{◌==◌}
use text.Mathlib.TextEquality.{eq_iff}
use text.Mathlib.TextPositions.{eq_refl}
use netrunner.Prelude.Tests.{if◌then◌else◌}
use netrunner.Prelude.Lists.{length, is_some, or_else}

abbrev pub Dict {ℓ} : Type ℓ → Type ℓ
Dict V = List (String × V)

pub str_eq_sym : (a b : String) → (a == b) ≡ (b == a)
str_eq_sym a b = ground (arith, eq_iff a b, eq_iff b a)

abbrev pub contains : String → List String → Bool
contains k [] = false
contains k (j ∷ js) = if j == k then true else contains k js

abbrev pub distinct : List String → Bool
distinct [] = true
distinct (k ∷ ks) = if contains k ks then false else distinct ks

module _ {ℓ} {V : Type ℓ} where
  -- v, ok := m[k]
  unfoldable pub lookup : String → Dict V → Option V
  lookup k [] = none
  lookup k ((j, v) ∷ m) = if j == k then some v else lookup k m

  abbrev pub has : String → Dict V → Bool
  has k m = is_some (lookup k m)

  -- m[k] = v
  unfoldable pub insert : String → V → Dict V → Dict V
  insert key new [] = (key, new) ∷ []
  insert key new (entry ∷ more) =
      if entry.0 == key then (key, new) ∷ more else entry ∷ insert key new more

  -- delete(m, k)
  unfoldable pub remove : String → Dict V → Dict V
  remove k [] = []
  remove k ((j, v) ∷ m) = let rest = remove k m in if j == k then rest else (j, v) ∷ rest

  -- maps.Keys(m)
  unfoldable pub keys : Dict V → List String
  keys [] = []
  keys ((k, v) ∷ m) = k ∷ keys m

  -- for k, v := range src { if _, ok := dst[k]; !ok { dst[k] = v } }
  unfoldable pub add_missing : Dict V → Dict V → Dict V
  add_missing [] dst = dst
  add_missing ((k, v) ∷ src) dst = add_missing src (if has k dst then dst else insert k v dst)

  -- for k, v := range src { dst[k] = v }
  unfoldable pub put_all : Dict V → Dict V → Dict V
  put_all [] dst = dst
  put_all ((k, v) ∷ src) dst = insert k v (put_all src dst)

  pub lookup-insert :
      (key other : String) (new : V) (entries : Dict V)
      → lookup other (insert key new entries)
        ≡ (if key == other then some new else lookup other entries)
  unfolding lookup insert
  lookup-insert key other new [] = refl
  lookup-insert key other new ((first, old) ∷ more) = ground (
    arith,
    eq_iff first key,
    eq_iff first other,
    eq_iff key other,
    lookup-insert key other new more,
  )

  pub lookup-remove :
      (k j : String) (m : Dict V) → lookup j (remove k m) ≡ (if k == j then none else lookup j m)
  unfolding lookup remove
  lookup-remove k j [] = ground arith
  lookup-remove k j ((i, v) ∷ m) =
      ground (arith, lookup-remove k j m, eq_iff i k, eq_iff i j, eq_iff k j)

  pub lookup-insert_self : (k : String) (v : V) (m : Dict V) → lookup k (insert k v m) ≡ some v
  lookup-insert_self k v m = simp (lookup-insert, eq_refl)

  pub lookup-remove_self : (k : String) (m : Dict V) → lookup k (remove k m) ≡ none
  lookup-remove_self k m = simp (lookup-remove, eq_refl)

  pub lookup-add_missing :
      (k : String) (src dst : Dict V)
      → lookup k (add_missing src dst) ≡ or_else (lookup k dst) (lookup k src)
  unfolding add_missing lookup
  lookup-add_missing k [] dst = ground arith
  lookup-add_missing k ((j, v) ∷ src) dst = ground (
    arith,
    lookup-add_missing k src (if has j dst then dst else insert j v dst),
    lookup-insert j k v dst,
    eq_iff j k,
  )

  pub lookup-put_all :
      (k : String) (src dst : Dict V)
      → lookup k (put_all src dst) ≡ or_else (lookup k src) (lookup k dst)
  unfolding put_all lookup
  lookup-put_all k [] dst = ground arith
  lookup-put_all k ((j, v) ∷ src) dst =
      ground (arith, lookup-put_all k src dst, lookup-insert j k v (put_all src dst))

  pub length-remove-le : (k : String) (m : Dict V) → length (remove k m) ≤ length m
  unfolding remove
  length-remove-le k [] = omega arith
  length-remove-le k ((j, v) ∷ m) = ground (arith, length-remove-le k m)

  pub length-remove-lt : (k : String) (m : Dict V) → has k m ≡ true → length (remove k m) < length m
  unfolding remove lookup
  length-remove-lt k [] h = cc
  length-remove-lt k ((j, v) ∷ m) h = ground (arith, length-remove-le k m, length-remove-lt k m)

  pub length-insert_new :
      (key : String) (new : V) (entries : Dict V)
      → lookup key entries ≡ none
      → length (insert key new entries) ≡ suc (length entries)
  unfolding insert lookup
  length-insert_new key new [] h = refl
  length-insert_new key new ((first, old) ∷ more) h = ground (arith, length-insert_new key new more)

  pub has→contains-keys : (k : String) (m : Dict V) → has k m ≡ true → contains k (keys m) ≡ true
  unfolding lookup keys
  has→contains-keys k [] h = cc
  has→contains-keys k ((j, v) ∷ m) h = ground (arith, has→contains-keys k m)

  pub eq-nil_of_lookup : (m : Dict V) → ((k : String) → lookup k m ≡ none) → m ≡ []
  unfolding lookup
  eq-nil_of_lookup [] h = refl
  eq-nil_of_lookup ((j, v) ∷ m) h = ground (arith, h j, eq_refl j)

pub ruleset dict_laws = (lookup-insert, lookup-remove, lookup-add_missing, lookup-put_all, eq_refl)
