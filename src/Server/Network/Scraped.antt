-- ===== src/Server/Network/Scraped.antt =====
-- What the file for Prometheus of server/network.go lists.
use text.Mathlib.TextLemmas.{nil-append}
use netrunner.Prelude.{
  String, true, false, ◌≡◌, refl, ap, ◌∙◌, inl, inr, List, [], ◌∷◌, ◌<>◌, All, Bool-cases, str_eq,
}
use netrunner.Prelude.Dict.{Dict, insert}
use netrunner.Local.Snapshots.Names.{trim_prefix}
use netrunner.Local.Snapshots.Listed.{trim_prefix-append}
use netrunner.Server.Types.{NodeInfo}
use netrunner.Server.Network.{scraped}

-- `ts` are the addresses in the URIs of the nodes that are not paused, in order.
abbrev pub Targets : Dict NodeInfo → List String → Type 0
Targets [] ts = ts ≡ []
Targets ((name, i) ∷ infos) ts = elim i.paused [
  | true ↦ Targets infos ts
  | false ↦
      (t : String) × (more : List String) × (ts ≡ t ∷ more)
      × (i.uri ≡ "http://" <> t)
      × Targets infos more
]

abbrev pub target_lines : List String → String
target_lines [] = ""
target_lines (t ∷ ts) = ("        - " <> t <> "\n") <> target_lines ts

abbrev pub HasUri : String × NodeInfo → Type 0
HasUri (name, i) = (t : String) × (i.uri ≡ "http://" <> t)

line_of : (uri t : String) → uri ≡ "http://" <> t → trim_prefix uri "http://" ≡ t
line_of uri t e = ap (λ u. trim_prefix u "http://") e ∙ trim_prefix-append "http://" t

pub scraped-Targets :
    (infos : Dict NodeInfo)
    → All HasUri infos
    → (ts : List String) × Targets infos ts × (scraped infos ≡ target_lines ts)
unfolding scraped
scraped-Targets [] all = ([], refl, refl)
scraped-Targets ((name, i) ∷ infos) ((t, u), more) =
    let (ts, listed, text) = scraped-Targets infos more in
    elim (Bool-cases i.paused) [
      | inl e ↦ (ts, rw e listed, rw e (nil-append (scraped infos) ∙ text))
      | inr e ↦ (
        t ∷ ts,
        rw e (t, ts, refl, u, listed),
        rw e (
            ap (λ x. ("        - " <> x <> "\n") <> scraped infos) (line_of i.uri t u)
            ∙ ap (λ x. ("        - " <> t <> "\n") <> x) text),
      )
    ]

pub insert-All :
    {V : Type 0} (P : String × V → Type 0) (k : String) (v : V) (m : Dict V)
    → P (k, v)
    → All P m
    → All P (insert k v m)
unfolding insert
insert-All P k v [] one all = (one, tt)
insert-All P k v (e ∷ m) one (first, more) = elim (Bool-cases (str_eq e.0 k)) [
  | inl same ↦ rw same (one, more)
  | inr other ↦ rw other (first, insert-All P k v m one more)
]
