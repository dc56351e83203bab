-- ===== src/Server/Configs.antt =====
-- server/network.go: the configuration of a new network (`createConfig`), made from the default one.
pub mod Outcome
use netrunner.Prelude.{
  ℕ, suc, String, Bool, List, [], ◌∷◌, Option, none, some, str_eq, if◌then◌else◌, get_or,
}
use netrunner.Prelude.Action.{Result, ok, err, external, panic, result_of}
use netrunner.Prelude.Dict.{Dict, lookup, remove, put_all}
use netrunner.Host.{Host, Value}
use netrunner.Config.{NodeConfig, NetworkConfig, or_empty}
use netrunner.Local.Names.Search.{node_name}
use netrunner.Server.Types.{Options}

-- if err != nil { return err }
infixl 10 ◌and_then◌
abbrev pub ◌and_then◌ : {A B : Type 0} → Result A → (A → Result B) → Result B
ok a and_then f = f a
err e and_then f = err e

-- for k, v := range src { dst[k] = v }, where `dst` may be nil
unfoldable pub write_all : {V : Type 0} → Dict V → Option (Dict V) → Result (Option (Dict V))
write_all [] dst = ok dst
write_all (e ∷ src) none = err panic
write_all (e ∷ src) (some dst) = ok (some (put_all (e ∷ src) dst))

module _ (H : Host) where
  -- a JSON object of flags, none if the text is empty
  unfoldable pub flags_in : String → Result (Dict Value)
  flags_in text = if str_eq text "" then ok [] else result_of (H.unmarshal text) (external "flags")

  abbrev dynamic_flags : Bool → Dict Value → Dict Value
  dynamic_flags dynamic flags =
      if dynamic then remove H.keys.staking_port (remove H.keys.http_port flags) else flags

  abbrev text_flag : String → String → Dict Value
  text_flag key text = if str_eq text "" then [] else (key, Value.text text) ∷ []

  -- one round of the loop over the nodes, from index `i`
  unfoldable pub node_config : Options → ℕ → NodeConfig → Result NodeConfig
  unfolding write_all flags_in
  node_config o i c = write_all o.chain_configs c.chain_config_files and_then λ chains.
      write_all o.upgrade_configs c.upgrade_config_files and_then λ upgrades.
      write_all o.subnet_configs c.subnet_config_files and_then λ subnets.
      flags_in (get_or (lookup (node_name (suc i)) o.custom_node_configs) "") and_then λ custom.
      ok (record c {
        name = node_name (suc i);
        chain_config_files = chains;
        upgrade_config_files = upgrades;
        subnet_config_files = subnets;
        flags = some (
            put_all custom (
              put_all (text_flag H.keys.track_subnets o.track_subnets)
                (dynamic_flags o.dynamic_ports (or_empty c.flags))));
        binary_path = o.exec_path;
        redirect_stdout = o.redirect_nodes_output;
        redirect_stderr = o.redirect_nodes_output;
      })

  unfoldable pub node_configs_from : Options → ℕ → List NodeConfig → Result (List NodeConfig)
  node_configs_from o i [] = ok []
  node_configs_from o i (c ∷ cs) =
      let rest = node_configs_from o (suc i) cs in
      node_config o i c and_then λ made. rest and_then λ more. ok (made ∷ more)

  -- `cfg` is what NewDefaultConfigNNodes returned.
  unfoldable pub create_config : Options → NetworkConfig → Result NetworkConfig
  create_config o cfg = flags_in o.global_node_config and_then λ given.
      write_all given cfg.flags and_then λ flags.
      write_all (text_flag H.keys.plugin_dir o.plugin_dir) flags and_then λ flags'.
      node_configs_from o 0 cfg.node_configs and_then λ nodes.
      ok (record cfg { flags = flags'; node_configs = nodes })
