-- ===== src/Local/Chains/Sets.antt =====
-- Sets of texts and sorted lists of them, as local/blockchain.go uses set.Set, sort.Strings and the
-- splitting and joining of texts.
use Prim.Native.Char.{code}
use Prim.Native.String.{compare}
use text.Mathlib.Text.{is_le}
use netrunner.Prelude.{
  String, ◌||◌, ◌&&◌, not, ◌≡◌, refl, List, [], ◌∷◌, ◌<>◌, ◌==◌, if◌then◌else◌, arith, str_eq,
  eq_iff,
}
use netrunner.Prelude.Dict.{contains}

abbrev pub add_member : String → List String → List String
add_member k ks = if contains k ks then ks else k ∷ ks

abbrev pub add_members : List String → List String → List String
add_members [] ks = ks
add_members (j ∷ js) ks = add_members js (add_member j ks)

unfoldable pub drop_member : String → List String → List String
drop_member k [] = []
drop_member k (j ∷ js) = let rest = drop_member k js in if str_eq j k then rest else j ∷ rest

unfoldable pub put_in_order : String → List String → List String
put_in_order k [] = k ∷ []
put_in_order k (j ∷ js) =
    let rest = put_in_order k js in if is_le (compare k j) then k ∷ j ∷ js else j ∷ rest

-- sort.Strings
unfoldable pub sort : List String → List String
unfolding put_in_order
sort [] = []
sort (k ∷ ks) = put_in_order k (sort ks)

abbrev pub consed : String → List String → List String
consed c [] = c ∷ []
consed c (k ∷ ks) = (c <> k) ∷ ks

-- strings.Split(s, ",")
unfoldable pub split : String → List String
split String.[] = "" ∷ []
split (String.◌∷◌ c s) =
    let rest = split s in if code c == b',' then "" ∷ rest else consed (String.◌∷◌ c String.[]) rest

-- strings.Join(ks, ",")
unfoldable pub join_texts : List String → String
join_texts [] = ""
join_texts (k ∷ []) = k
join_texts (k ∷ j ∷ js) = k <> "," <> join_texts (j ∷ js)

unfoldable pub set_of : List String → List String
set_of [] = []
set_of (k ∷ ks) = let rest = set_of ks in add_member k rest

pub contains-add_member :
    (j k : String) (ks : List String) → contains j (add_member k ks) ≡ (str_eq k j || contains j ks)
contains-add_member j k ks = ground (arith, eq_iff k j)

pub contains-drop_member :
    (j k : String) (ks : List String)
    → contains j (drop_member k ks) ≡ (not (str_eq k j) && contains j ks)
unfolding drop_member
contains-drop_member j k [] = ground arith
contains-drop_member j k (i ∷ is) =
    ground (arith, contains-drop_member j k is, eq_iff i k, eq_iff i j, eq_iff k j)

contains-put_in_order :
    (j k : String) (ks : List String)
    → contains j (put_in_order k ks) ≡ (str_eq k j || contains j ks)
unfolding put_in_order
contains-put_in_order j k [] = ground arith
contains-put_in_order j k (i ∷ is) = ground (arith, contains-put_in_order j k is)

pub contains-sort : (j : String) (ks : List String) → contains j (sort ks) ≡ contains j ks
unfolding sort
contains-sort j [] = refl
contains-sort j (k ∷ ks) = ground (arith, contains-put_in_order j k (sort ks), contains-sort j ks)
