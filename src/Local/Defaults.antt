-- ===== src/Local/Defaults.antt =====
-- local/network.go: the default configuration, with any number of nodes (`NewDefaultConfigNNodes`).
-- `default` is `defaultNetworkConfig`, which is read from embedded files at start-up.
pub mod Many
use netrunner.Prelude.{
  ℕ, zero, suc, ◌+◌, ◌-◌, ◌*◌, ◌%◌, String, Bool, List, [], ◌∷◌, ◌++◌, Option, none, some, ltb,
  if◌then◌else◌, length, take, last,
}
use netrunner.Prelude.Action.{
  Action, Result, ok, err, pure, lift, or_raise, no_reference_port, wrong_type, panic, ◌>>=◌, ◌>>◌,
}
use netrunner.Prelude.Dict.{lookup}
use netrunner.Host.{Host, Value, as_float}
use netrunner.Config.{NodeConfig, NetworkConfig, or_empty}

-- The maps are copies, so that nobody writes to those of the default.
unfoldable pub new_default_config : NetworkConfig → String → NetworkConfig
new_default_config default binary_path = record default { binary_path = binary_path }

-- a sum of two Go ints, in two's complement
abbrev pub int_add : ℕ → ℕ → ℕ
int_add a b = (a + b) % 18446744073709551616

module _ (H : Host) where
  open H use {World, keys, new_cert_and_key, float_to_int}

  abbrev reference_number : String → Option ℕ → Result ℕ
  reference_number key none = err (wrong_type key)
  reference_number key (some bits) = ok (float_to_int bits)

  abbrev reference_entry : String → Option Value → Result ℕ
  reference_entry key none = err no_reference_port
  reference_entry key (some v) = reference_number key (as_float v)

  -- int(refPort), where the port is there and is a float64
  unfoldable pub reference_port : String → NodeConfig → Result ℕ
  reference_port key c = reference_entry key (lookup key (or_empty c.flags))

  -- the configuration of the node that is added in round `i`
  unfoldable pub extra_node : NodeConfig → ℕ → ℕ → ℕ → String × String → NodeConfig
  extra_node ref api_port p2p_port i made = record ref {
    staking_cert = made.0;
    staking_key = made.1;
    flags = some (
        (keys.http_port, Value.int (int_add api_port (suc i * 2)))
        ∷ (keys.staking_port, Value.int (int_add p2p_port (suc i * 2)))
        ∷ []);
  }

  -- for i := 0; i < toAdd; i++ { ... }, from round `i` with `n` rounds to go
  unfoldable pub extra_nodes : NodeConfig → ℕ → ℕ → ℕ → ℕ → Action World (List NodeConfig)
  unfolding extra_node
  extra_nodes ref api_port p2p_port i zero w = (ok [], w)
  extra_nodes ref api_port p2p_port i (suc n) w =
      (do
        made ← new_cert_and_key
        more ← extra_nodes ref api_port p2p_port (suc i) n
        pure (extra_node ref api_port p2p_port i made ∷ more))
        w

  -- if int(numNodes) > len(netConfig.NodeConfigs) { ... }
  unfoldable pub missing_nodes : List NodeConfig → ℕ → Action World (List NodeConfig)
  unfolding reference_port extra_nodes
  missing_nodes cs n w =
      if ltb (length cs) n
      then (do
        ref ← or_raise (last cs) panic
        api_port ← lift (reference_port keys.http_port ref)
        p2p_port ← lift (reference_port keys.staking_port ref)
        extra_nodes ref api_port p2p_port 0 (n - length cs))
          w
      else (ok [], w)

  unfoldable pub new_default_config_n_nodes :
      NetworkConfig → String → ℕ → Action World NetworkConfig
  unfolding missing_nodes
  new_default_config_n_nodes default binary_path n w =
      (do
        let c = new_default_config default binary_path
        more ← missing_nodes c.node_configs n
        let all = c.node_configs ++ more
        pure (record c { node_configs = if ltb n (length all) then take n all else all }))
        w
