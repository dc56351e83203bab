-- ===== src/Local/Names/Search.antt =====
-- The loop that looks for a free default name, and why it ends.
use netrunner.Prelude.{
  ℕ, zero, suc, ◌+◌, ◌%◌, ◌≤◌, ◌<◌, String, true, false, ◌<>◌, ◌≡◌, ◌≢◌, refl, length, arith,
  eq_iff, Bool-cases, inl, inr,
}
use text.Mathlib.TextLemmas.{append_cancel_left, append-eq-nil_iff}
use netrunner.Prelude.Action.{Result, ok, err, external}
use netrunner.Prelude.Dict.{Dict, has, remove, lookup-remove, length-remove-lt}
use netrunner.Prelude.Decimal.{decimal, decimal_inj}

-- uint64
abbrev pub u64 : ℕ → ℕ
u64 n = n % 18446744073709551616

-- fmt.Sprintf("%s%d", defaultNodeNamePrefix, suffix)
unfoldable pub node_name : ℕ → String
node_name suffix = "node" <> decimal suffix

module _ {V : Type 0} where
  -- The loop of `setNodeName`, on fuel: the first default name that is free, and its suffix.
  unfoldable pub search_suffix : ℕ → ℕ → Dict V → Result (String × ℕ)
  search_suffix zero suffix nodes = err (external "out of fuel")
  search_suffix (suc fuel) suffix nodes = elim (has (node_name suffix) nodes) [
    | true ↦ search_suffix fuel (u64 (suffix + 1)) nodes
    | false ↦ ok (node_name suffix, suffix)
  ]

node_name_inj : (m n : ℕ) → node_name m ≡ node_name n → m ≡ n
unfolding node_name
node_name_inj m n e = decimal_inj m n (append_cancel_left "node" (decimal m) (decimal n) e)

-- Every name from `suffix` on that is in `nodes` is in `left`, where the search has not been yet.
abbrev Covers : {V : Type 0} → ℕ → Dict V → Dict V → Type 0
Covers suffix nodes left =
    (j : ℕ) → suffix ≤ j → has (node_name j) nodes ≡ true → has (node_name j) left ≡ true

Covers-next :
    {V : Type 0} (suffix : ℕ) (nodes left : Dict V)
    → Covers suffix nodes left
    → Covers (suffix + 1) nodes (remove (node_name suffix) left)
Covers-next suffix nodes left covers j above there = ground (
  arith,
  covers j,
  lookup-remove (node_name suffix) (node_name j) left,
  eq_iff (node_name suffix) (node_name j),
  node_name_inj suffix j,
)

abbrev pub IsFree : {V : Type 0} → Dict V → Result (String × ℕ) → Type 0
IsFree nodes (ok (name, suffix)) = (name ≡ node_name suffix) × (has name nodes ≡ false)
IsFree nodes (err e) = ⊥

search_suffix-Covers :
    {V : Type 0} (fuel suffix : ℕ) (nodes left : Dict V)
    → length left < fuel
    → suffix + fuel < 18446744073709551616
    → Covers suffix nodes left
    → IsFree nodes (search_suffix fuel suffix nodes)
unfolding search_suffix
search_suffix-Covers zero suffix nodes left enough small covers = absurd (omega arith)
search_suffix-Covers (suc fuel) suffix nodes left enough small covers =
    elim (Bool-cases (has (node_name suffix) nodes)) [
      | inr free ↦ rw (free, IsFree) (refl, free)
      | inl taken ↦
          rw (taken, IsFree)
            (let next : u64 (suffix + 1) ≡ suffix + 1 = omega arith in
              rw (next, IsFree)
                (search_suffix-Covers fuel (suffix + 1) nodes (remove (node_name suffix) left)
                  (omega (
                    arith,
                    length-remove-lt (node_name suffix) left (covers suffix (omega arith) taken),
                  ))
                  (omega arith) (Covers-next suffix nodes left covers)))
    ]

-- With one round more than there are nodes, and no wrap of the 64-bit counter on the way, the search
-- ends with a default name that no node has.
pub search_suffix_total :
    {V : Type 0} (suffix : ℕ) (nodes : Dict V)
    → suffix + suc (length nodes) < 18446744073709551616
    → IsFree nodes (search_suffix (suc (length nodes)) suffix nodes)
search_suffix_total suffix nodes small =
    search_suffix-Covers (suc (length nodes)) suffix nodes nodes (omega arith) small (λ j _ h. h)

node_name-ne-nil : (suffix : ℕ) → node_name suffix ≢ ""
unfolding node_name
node_name-ne-nil suffix e =
    let bad = (append-eq-nil_iff {p = "node"} {q = decimal suffix}).0 e in
    absurd (ground (arith, bad, eq_iff "node" ""))

pub search_suffix-ne-nil :
    {V : Type 0} (fuel suffix : ℕ) (nodes : Dict V) (name : String) (found : ℕ)
    → search_suffix fuel suffix nodes ≡ ok (name, found)
    → name ≢ ""
unfolding search_suffix
search_suffix-ne-nil zero suffix nodes name found h = cc
search_suffix-ne-nil (suc fuel) suffix nodes name found h =
    ground (
      arith,
      search_suffix-ne-nil fuel (u64 (suffix + 1)) nodes name found,
      node_name-ne-nil suffix,
    )
