-- ===== src/Local/Add/Completed.antt =====
-- What `addNode` fills in, and what it leaves as it was given.
use netrunner.Prelude.{
  String, ◌≡◌, ◌≢◌, arith, str_eq, eq_iff, if◌then◌else◌, or_else, inl, inr, ◌⊎◌,
}
use netrunner.Prelude.Action.{ok, Result-cases}
use netrunner.Prelude.Dict.{Dict, lookup, lookup-add_missing}
use netrunner.Host.{Host, Value}
use netrunner.Config.{NodeConfig, or_empty}
use netrunner.Local.Types.{LocalNode, LocalNetwork}
use netrunner.Local.Args.{NodeData, build_args}
use netrunner.Local.Args.Built.{IsBuilt, build_args-IsBuilt}
use netrunner.Local.Files.{make_node_dir}
use netrunner.Local.Add.{
  with_defaults, with_staking_files, with_signing_key, complete_config, launch, node_of,
  read_config_file, get_node_sem_ver,
}

-- The configuration with which a node is started: what the node's own configuration says goes before
-- what the network's says, staking files are kept if both are given, and the rest is as given.
pub record IsCompleted (H : Host) (ln : LocalNetwork H) (c c' : NodeConfig) : Type 0 where
  pub name : c'.name ≡ c.name
  pub is_beacon : c'.is_beacon ≡ c.is_beacon
  pub config_file : c'.config_file ≡ c.config_file
  pub binary_path :
      c'.binary_path ≡ (if str_eq c.binary_path "" then ln.binary_path else c.binary_path)
  pub flags :
      (k : String)
      → lookup k (or_empty c'.flags)
        ≡ or_else (lookup k (or_empty c.flags)) (lookup k (or_empty ln.flags))
  pub chain_config_files :
      (k : String)
      → lookup k (or_empty c'.chain_config_files)
        ≡ or_else (lookup k (or_empty c.chain_config_files)) (lookup k ln.chain_config_files)
  pub staking_files :
      c.staking_key ≢ ""
      → c.staking_cert ≢ ""
      → (c'.staking_key ≡ c.staking_key) × (c'.staking_cert ≡ c.staking_cert)
  -- a certificate and a key that were made together
  pub new_staking_files :
      (c.staking_key ≡ "") ⊎ (c.staking_cert ≡ "")
      → (made : String × String) × (w : H.World) × ((H.new_cert_and_key w).0 ≡ ok made)
        × (c'.staking_cert ≡ made.0)
        × (c'.staking_key ≡ made.1)
  pub staking_signing_key :
      c.staking_signing_key ≢ "" → c'.staking_signing_key ≡ c.staking_signing_key

pub complete_config-IsCompleted :
    (H : Host) (ln : LocalNetwork H) (c c' : NodeConfig) (w : H.World)
    → (complete_config H ln c w).0 ≡ ok c'
    → IsCompleted H ln c c'
unfolding complete_config with_defaults with_staking_files with_signing_key
complete_config-IsCompleted H ln c c' w h = record {
  name = ground arith;
  is_beacon = ground arith;
  config_file = ground arith;
  binary_path = ground arith;
  flags = λ k. ground (arith, lookup-add_missing k (or_empty ln.flags) (or_empty c.flags));
  chain_config_files = λ k.
      ground (arith, lookup-add_missing k ln.chain_config_files (or_empty c.chain_config_files));
  staking_files = λ key cert. ground (arith, eq_iff c.staking_key "", eq_iff c.staking_cert "");
  new_staking_files = λ missing. elim (Result-cases (H.new_cert_and_key w).0) [
    | inr (e, x) ↦ absurd (ground (arith, eq_iff c.staking_key "", eq_iff c.staking_cert ""))
    | inl (made, x) ↦ (
      made,
      w,
      x,
      ground (arith, eq_iff c.staking_key "", eq_iff c.staking_cert ""),
      ground (arith, eq_iff c.staking_key "", eq_iff c.staking_cert ""),
    )
  ];
  staking_signing_key = λ given. ground (arith, eq_iff c.staking_signing_key "");
}

-- The node that is started has what `buildArgs` found for its configuration.
pub record IsMade (H : Host) (ln : LocalNetwork H) (c : NodeConfig) (n : LocalNode H) : Type 0 where
  pub file : Dict Value
  pub dir : String
  pub made : NodeData
  pub built : IsBuilt H ln file dir c made
  pub shape : n ≡ node_of H ln c made n.node_id n.process

pub launch-IsMade :
    (H : Host) (ln : LocalNetwork H) (c : NodeConfig) (w : H.World) (n : LocalNode H)
    → (launch H ln c w).0 ≡ ok n
    → IsMade H ln c n
unfolding launch
launch-IsMade H ln c w n h =
    let a = make_node_dir H ln.root_dir c.name w in
    elim (Result-cases a.0) [
      | inr (x, e) ↦ absurd (ground arith)
      | inl (dir, e) ↦
          let b = read_config_file H c.config_file a.1 in
          elim (Result-cases b.0) [
            | inr (x, f) ↦ absurd (ground arith)
            | inl (file, f) ↦
                let d = get_node_sem_ver H c b.1 in
                elim (Result-cases d.0) [
                  | inr (x, g) ↦ absurd (ground arith)
                  | inl (version, g) ↦
                      elim (Result-cases (build_args H ln version file dir c d.1).0) [
                        | inr (x, k) ↦ absurd (ground arith)
                        | inl (made, k) ↦ record {
                          file = file;
                          dir = dir;
                          made = made;
                          built = build_args-IsBuilt H ln version file dir c d.1 made k;
                          shape = ground arith;
                        }
                      ]
                ]
          ]
    ]
