-- ===== src/Local/Chains/Create.antt =====
-- local/blockchain.go: the transactions that create subnets and blockchains, and what nodes need for
-- the new blockchains.
use netrunner.Prelude.{
  ℕ, zero, suc, String, Bool, true, false, not, List, str_eq, ltb, if◌then◌else◌, length, ◌<>◌,
}
use netrunner.Prelude.Action.{
  Action, ok, err, pure, lift, or_raise, refuse_if, when, for_each, for_all, panic, vms_failed,
  transaction_mismatch, ◌>>=◌, ◌>>◌,
}
use netrunner.Prelude.Dict.{lookup}
use netrunner.Host.{Host, Stat, present, absent, unreadable}
use netrunner.Utils.{vm_id}
use netrunner.Local.Types.{LocalNode, State}
use netrunner.Local.Add.{on_world}
use netrunner.Local.Chains.{Api, SubnetSpec, BlockchainSpec, BlockchainInfo, uri_of}
use netrunner.Local.Chains.Healthy.{healthy}
use netrunner.Local.Chains.ConfigFiles.{get_subnet_validators_nodenames}
use netrunner.Local.Chains.Permissionless.{parse_id}

module _ (H : Host) (A : Api H) where
  open A use {Wallet, create_subnet, create_chain_tx, issue_chain_tx, load_vms, alias_chain}
  open A use {wait_rounds, wait_error}

  -- createSubnets: one ID for each specification
  unfoldable pub create_subnets :
      Wallet → List SubnetSpec → Action (State H) (List (String × SubnetSpec))
  unfolding for_all
  create_subnets w = for_all λ spec. on_world H (create_subnet w >>= λ id. pure (id, spec))

  -- createBlockchainTxs: each specification with its transaction
  unfoldable pub create_blockchain_tx :
      Wallet → BlockchainSpec → Action (State H) (BlockchainSpec × String)
  unfolding vm_id
  create_blockchain_tx w spec = do
    vm ← lift (vm_id H spec.vm_name)
    given ← or_raise spec.subnet_id panic
    subnet ← parse_id H A given
    tx ← on_world H (create_chain_tx w subnet spec.genesis vm spec.vm_name)
    pure (spec, tx)

  -- one round of createBlockchains
  unfoldable pub issue_blockchain : Wallet → BlockchainSpec × String → Action (State H) (Unit {0})
  unfolding vm_id
  issue_blockchain w (spec, tx) = do
    lift (vm_id H spec.vm_name)
    id ← on_world H (issue_chain_tx w tx)
    refuse_if (not (str_eq id tx)) transaction_mismatch

  -- reloadVMPlugins, on one node
  unfoldable pub reload_plugins_of : String × LocalNode H → Action (State H) (Unit {0})
  reload_plugins_of (name, n) =
      when (not n.paused)
        (do failed ← on_world H (load_vms (uri_of n)); refuse_if (ltb 0 (length failed)) vms_failed)

  unfoldable pub reload_vm_plugins : Action (State H) (Unit {0})
  unfolding reload_plugins_of for_each
  reload_vm_plugins s = for_each reload_plugins_of s.network.nodes s

  -- RegisterBlockchainAliases, for one blockchain
  unfoldable pub register_alias : BlockchainSpec × BlockchainInfo → Action (State H) (Unit {0})
  unfolding for_each
  register_alias (spec, info) s =
      when (not (str_eq spec.blockchain_alias ""))
        (for_each
          (λ (name, n).
            when (not n.paused)
              (on_world H (alias_chain (uri_of n) info.blockchain_id spec.blockchain_alias)))
          s.network.nodes)
        s

  abbrev is_there : Stat → Bool
  is_there present = true
  is_there absent = false
  is_there unreadable = false

  -- looking for a log file, once a second
  unfoldable pub wait_for_log : String → ℕ → Action H.World (Unit {0})
  wait_for_log path zero w = (err wait_error, w)
  wait_for_log path (suc n) w =
      let again = wait_for_log path n (H.stat path w).1 in
      if is_there (H.stat path w).0 then (ok tt, (H.stat path w).1) else again

  unfoldable pub log_of : BlockchainInfo → String → Action (State H) (Unit {0})
  unfolding wait_for_log
  log_of info name s =
      (do
        n ← or_raise (lookup name s.network.nodes) panic
        when (not n.paused) (
            on_world H
              (wait_for_log (H.join n.logs_dir (info.blockchain_id <> ".log")) (suc wait_rounds))))
        s

  unfoldable pub logs_of : BlockchainInfo → Action (State H) (Unit {0})
  unfolding log_of for_each get_subnet_validators_nodenames
  logs_of info = do
    names ← get_subnet_validators_nodenames H A info.subnet_id
    for_each (log_of info) names

  -- waitForCustomChainsReady
  unfoldable pub wait_for_custom_chains_ready : List BlockchainInfo → Action (State H) (Unit {0})
  unfolding healthy logs_of for_each
  wait_for_custom_chains_ready infos = do healthy H A; for_each logs_of infos
