-- ===== src/Local/Chains/ConfigFiles/Written.antt =====
-- The files of subnet configurations that nodes have after `setSubnetConfigFiles`.
use netrunner.Prelude.{
  String, ◌&&◌, ◌≡◌, ◌∙◌, refl, ap, inl, inr, List, [], ◌∷◌, Option, none, some, arith, str_eq,
  eq_iff, if◌then◌else◌, Option-cases,
}
use netrunner.Prelude.Action.{ok, for_each, Result-cases}
use netrunner.Prelude.Dict.{lookup, insert, contains, lookup-insert}
use netrunner.Host.{Host}
use netrunner.Config.{or_empty}
use netrunner.Local.Types.{LocalNode, State}
use netrunner.Local.Chains.{SubnetSpec}
use netrunner.Local.Chains.ConfigFiles.{
  put_text, with_subnet_config, change_config, set_one_subnet, set_subnet_config_files,
}

abbrev file_in : {H : Host} → String → Option (LocalNode H) → Option String
file_in id none = none
file_in id (some n) = lookup id (or_empty n.config.subnet_config_files)

-- the configuration of the subnet `id` that the node `k` has
abbrev pub subnet_file : {H : Host} → State H → String → String → Option String
subnet_file s k id = file_in id (lookup k s.network.nodes)

-- what the specifications say of it: the last one that gives a configuration and names the node
abbrev pub specified : String → String → List (String × SubnetSpec) → Option String → Option String
specified k id [] found = found
specified k id ((new, spec) ∷ more) found = specified k id more (elim spec.subnet_config [
  | none ↦ found
  | some text ↦ if contains k spec.participants && str_eq new id then some text else found
])

change_config_lem :
    (H : Host) (new text name k id : String) (s : State H)
    → (change_config H (with_subnet_config new text) name s).0 ≡ ok tt
    → subnet_file (change_config H (with_subnet_config new text) name s).1 k id
      ≡ (if str_eq name k && str_eq new id then some text else subnet_file s k id)
unfolding change_config with_subnet_config put_text lookup
change_config_lem H new text name k id s h = elim (Option-cases (lookup name s.network.nodes)) [
  | inl e ↦ absurd (ground arith)
  | inr (n, e) ↦ elim (Option-cases n.config.subnet_config_files) [
    | inl f ↦ absurd (ground arith)
    | inr (m, f) ↦
        let c = record n.config { subnet_config_files = some (insert new text m) } in
        ground (
          arith,
          eq_iff name k,
          lookup-insert new id text m,
          lookup-insert name k (record n { config = c }) s.network.nodes,
        )
  ]
]

for_each_lem :
    (H : Host) (new text k id : String) (names : List String) (s : State H)
    → let ran = for_each (change_config H (with_subnet_config new text)) names s in
      ran.0 ≡ ok tt
      → subnet_file ran.1 k id
        ≡ (if contains k names && str_eq new id then some text else subnet_file s k id)
unfolding for_each
for_each_lem H new text k id [] s h = ground arith
for_each_lem H new text k id (name ∷ names) s h =
    let first = change_config H (with_subnet_config new text) name s in
    elim (Result-cases first.0) [
      | inr (e, x) ↦ absurd (ground arith)
      | inl (u, x) ↦
          let rest = for_each_lem H new text k id names first.1 in
          ground (arith, rest, change_config_lem H new text name k id s)
    ]

set_one_subnet_lem :
    (H : Host) (new k id : String) (spec : SubnetSpec) (s : State H)
    → (set_one_subnet H (new, spec) s).0 ≡ ok tt
    → subnet_file (set_one_subnet H (new, spec) s).1 k id
      ≡ specified k id ((new, spec) ∷ []) (subnet_file s k id)
unfolding set_one_subnet
set_one_subnet_lem H new k id spec s h = elim (Option-cases spec.subnet_config) [
  | inl e ↦ ground arith
  | inr (text, e) ↦ ground (arith, for_each_lem H new text k id spec.participants s)
]

-- Where setSubnetConfigFiles succeeds, each node has for each subnet the configuration of the last
-- specification for it that gives one and names the node among its participants, and where there is
-- none, the one that it had.
pub set_subnet_config_files_lem :
    (H : Host) (new : List (String × SubnetSpec)) (k id : String) (s : State H)
    → (set_subnet_config_files H new s).0 ≡ ok tt
    → subnet_file (set_subnet_config_files H new s).1 k id ≡ specified k id new (subnet_file s k id)
unfolding set_subnet_config_files for_each
set_subnet_config_files_lem H [] k id s h = refl
set_subnet_config_files_lem H ((n, spec) ∷ more) k id s h =
    elim (Result-cases (set_one_subnet H (n, spec) s).0) [
      | inr (e, x) ↦ absurd (ground arith)
      | inl (u, x) ↦
          let t = (set_one_subnet H (n, spec) s).1 in
          rw x (
            set_subnet_config_files_lem H more k id t (rw x at h)
            ∙ ap (λ f. specified k id more f) (set_one_subnet_lem H n k id spec s x))
    ]
