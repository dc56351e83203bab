-- ===== src/Server/Network/Methods.antt =====
-- server/network.go: the methods of the server's network that start it, load a snapshot, and install
-- subnets, chains and validators, with a wait for health before and after.
use netrunner.Prelude.{String, List, [], ◌∷◌, Option, none, some}
use netrunner.Prelude.Action.{Action, Result, ok, err, pure, lift, ◌>>=◌, ◌>>◌}
use netrunner.Host.{Host}
use netrunner.Config.{NetworkConfig}
use netrunner.Local.Types.{LocalNetwork, State}
use netrunner.Local.Ops.{stop_method}
use netrunner.Local.Load.{start_network}
use netrunner.Local.Defaults.{new_default_config_n_nodes}
use netrunner.Local.Snapshots.{Codec}
use netrunner.Local.Snapshots.Load.{start_from_snapshot}
use netrunner.Local.Chains.{Api, SubnetSpec, BlockchainSpec}
use netrunner.Local.Chains.Install.{install_subnets, create_blockchains}
use netrunner.Local.Chains.Transform.{transform_to_elastic_subnets}
use netrunner.Local.Chains.Permissionless.{add_permissionless_validators, remove_subnet_validators}
use netrunner.Server.Types.{
  ElasticSubnetSpec, PermissionlessValidatorSpec, RemoveSubnetValidatorSpec,
}
use netrunner.Server.Configs.{create_config, flags_in}
use netrunner.Server.Network.{Kept, update_node_info}
use netrunner.Server.Network.Subnets.{PChain, on_network, on_outside, await_healthy}

module _ (H : Host) where
  -- nw, err := ...; if err != nil { return err }; lc.nw = nw
  unfoldable pub take_network :
      (H.World → Result (Unit {0}) × Option (LocalNetwork H) × H.World) → Action (Kept H) Unit
  take_network start s =
      let made = start s.world in
      elim made.0 [
        | err e ↦ (err e, record s { world = made.2 })
        | ok done ↦ (ok done, record s { network = made.1; world = made.2 })
      ]

  -- LoadSnapshot
  unfoldable pub load_snapshot : Codec → String → Action (Kept H) Unit
  unfolding flags_in take_network start_from_snapshot update_node_info
  load_snapshot J name s =
      (do
        flags ← lift (flags_in H s.options.global_node_config)
        take_network (
            start_from_snapshot H J name
              (record {
                binary_path = s.exec_path;
                plugin_dir = s.plugin_dir;
                chain_configs = s.options.chain_configs;
                upgrade_configs = s.options.upgrade_configs;
                subnet_configs = s.options.subnet_configs;
                flags = flags;
              })
              s.options.root_data_dir s.options.snapshots_dir s.options.reassign_ports_if_used)
        update_node_info H)
        s

  -- Stop, the first call of it: its error is only printed
  unfoldable pub stop : Kept H → Kept H
  unfolding on_network stop_method
  stop s = elim s.network [ none ↦ s | some ln ↦ (on_network H (stop_method H) s).1 ]

module _ (H : Host) (A : Api H) (P : PChain H) where
  -- Start, from the default configuration; the configuration is also kept in `cfg`, which nothing
  -- else reads
  unfoldable pub start : NetworkConfig → Action (Kept H) Unit
  unfolding create_config new_default_config_n_nodes take_network start_network update_node_info
      await_healthy
  start default s =
      (do
        made ←
            on_outside H
              (new_default_config_n_nodes H default s.options.exec_path s.options.num_nodes)
        c ← lift (create_config H s.options made)
        take_network H (
            start_network H c s.options.root_data_dir s.options.snapshots_dir
              s.options.reassign_ports_if_used)
        update_node_info H
        await_healthy H A P)
        s

  -- an operation of the network, after a wait for health and before another
  unfoldable pub while_healthy : {B : Type 0} → Action (State H) B → Action (Kept H) B
  unfolding on_network await_healthy
  while_healthy m = do await_healthy H A P; b ← on_network H m; await_healthy H A P; pure b

  unfoldable pub create_chains : List BlockchainSpec → Action (Kept H) (List String)
  unfolding while_healthy create_blockchains
  create_chains [] = pure []
  create_chains (c ∷ cs) = while_healthy (create_blockchains H A (c ∷ cs))

  unfoldable pub add_validators : List PermissionlessValidatorSpec → Action (Kept H) Unit
  unfolding while_healthy add_permissionless_validators
  add_validators [] = pure tt
  add_validators (v ∷ vs) = while_healthy (add_permissionless_validators H A (v ∷ vs))

  unfoldable pub remove_validators : List RemoveSubnetValidatorSpec → Action (Kept H) Unit
  unfolding while_healthy remove_subnet_validators
  remove_validators [] = pure tt
  remove_validators (r ∷ rs) = while_healthy (remove_subnet_validators H A (r ∷ rs))

  unfoldable pub transform_subnets :
      List (Option String × ElasticSubnetSpec) → Action (Kept H) (List String × List String)
  unfolding while_healthy transform_to_elastic_subnets
  transform_subnets [] = pure ([], [])
  transform_subnets (t ∷ ts) = while_healthy (transform_to_elastic_subnets H A (t ∷ ts))

  unfoldable pub create_subnets : List SubnetSpec → Action (Kept H) (List String)
  unfolding while_healthy install_subnets
  create_subnets [] = pure []
  create_subnets (c ∷ cs) = while_healthy (install_subnets H A (c ∷ cs))
