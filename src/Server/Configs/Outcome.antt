-- ===== src/Server/Configs/Outcome.antt =====
-- What a network's configuration looks like, and when there is none.
use netrunner.Prelude.{
  ℕ, suc, String, ◌≡◌, ◌≢◌, refl, List, [], ◌∷◌, Option, none, some, arith, All, inl, inr,
}
use netrunner.Prelude.Action.{ok, Result-cases}
use netrunner.Prelude.Dict.{Dict}
use netrunner.Host.{Host}
use netrunner.Config.{NodeConfig, NetworkConfig}
use netrunner.Local.Names.Search.{node_name}
use netrunner.Server.Types.{Options}
use netrunner.Server.Configs.{write_all, node_config, node_configs_from, create_config}

-- From index `i` on, the nodes are numbered from `i + 1`, run the requested binary, and are as many as
-- `cs`.
abbrev pub IsNumbered : String → ℕ → List NodeConfig → List NodeConfig → Type 0
IsNumbered exec i [] [] = Unit
IsNumbered exec i (c ∷ cs) (d ∷ ds) =
    (d.name ≡ node_name (suc i))
    × (d.binary_path ≡ exec)
    × (d.staking_key ≡ c.staking_key)
    × (d.staking_cert ≡ c.staking_cert)
    × IsNumbered exec (suc i) cs ds
IsNumbered exec i cs ds = ⊥

node_config_lem :
    (H : Host) (o : Options) (i : ℕ) (c d : NodeConfig)
    → node_config H o i c ≡ ok d
    → (d.name ≡ node_name (suc i))
      × (d.binary_path ≡ o.exec_path)
      × (d.staking_key ≡ c.staking_key)
      × (d.staking_cert ≡ c.staking_cert)
unfolding node_config
node_config_lem H o i c d h = ground arith

node_configs_from-IsNumbered :
    (H : Host) (o : Options) (i : ℕ) (cs ds : List NodeConfig)
    → node_configs_from H o i cs ≡ ok ds
    → IsNumbered o.exec_path i cs ds
unfolding node_configs_from
node_configs_from-IsNumbered H o i [] [] h = tt
node_configs_from-IsNumbered H o i [] (d ∷ ds) h = absurd cc
node_configs_from-IsNumbered H o i (c ∷ cs) [] h = absurd (ground arith)
node_configs_from-IsNumbered H o i (c ∷ cs) (d ∷ ds) h =
    ground (arith, node_config_lem H o i c d, node_configs_from-IsNumbered H o (suc i) cs ds)

-- Where `createConfig` succeeds, the nodes are those of the default configuration, in order, with
-- their staking files, named node1, node2 and so on, and with the requested binary.
pub create_config-IsNumbered :
    (H : Host) (o : Options) (cfg made : NetworkConfig)
    → create_config H o cfg ≡ ok made
    → IsNumbered o.exec_path 0 cfg.node_configs made.node_configs
unfolding create_config
create_config-IsNumbered H o cfg made h =
    node_configs_from-IsNumbered H o 0 cfg.node_configs made.node_configs (ground arith)

writes_nothing :
    (src : Dict String) (dst : Option (Dict String)) (made : Option (Dict String))
    → write_all src dst ≡ ok made
    → dst ≡ none
    → src ≡ []
unfolding write_all
writes_nothing [] dst made h e = refl
writes_nothing (e ∷ src) none made h n = absurd cc
writes_nothing (e ∷ src) (some d) made h n = absurd cc

node_config-chains :
    (H : Host) (o : Options) (i : ℕ) (c d : NodeConfig)
    → node_config H o i c ≡ ok d
    → c.chain_config_files ≡ none
    → o.chain_configs ≡ []
unfolding node_config
node_config-chains H o i c d h n =
    elim (Result-cases (write_all o.chain_configs c.chain_config_files)) [
      | inl (made, e) ↦ writes_nothing o.chain_configs c.chain_config_files made e n
      | inr (x, e) ↦ absurd (ground (arith, e))
    ]

node_configs_from-chains :
    (H : Host) (o : Options) (i : ℕ) (cs ds : List NodeConfig)
    → node_configs_from H o i cs ≡ ok ds
    → All (λ c. c.chain_config_files ≡ none) cs
    → cs ≢ []
    → o.chain_configs ≡ []
unfolding node_configs_from
node_configs_from-chains H o i [] ds h nil some_node = absurd (some_node refl)
node_configs_from-chains H o i (c ∷ cs) ds h nil some_node =
    elim (Result-cases (node_config H o i c)) [
      | inl (d, e) ↦ node_config-chains H o i c d e nil.0
      | inr (x, e) ↦ absurd (ground (arith, e))
    ]

-- If the nodes of the default configuration have no map of chain configurations, and there is any
-- node, `createConfig` succeeds only if no chain configurations are requested.
pub create_config-chains :
    (H : Host) (o : Options) (cfg made : NetworkConfig)
    → create_config H o cfg ≡ ok made
    → All (λ c. c.chain_config_files ≡ none) cfg.node_configs
    → cfg.node_configs ≢ []
    → o.chain_configs ≡ []
unfolding create_config
create_config-chains H o cfg made h nil some_node =
    node_configs_from-chains H o 0 cfg.node_configs made.node_configs (ground arith) nil some_node
