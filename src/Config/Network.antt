-- ===== src/Config/Network.antt =====
-- network/config.go and utils/utils.go: validation of a network's configuration.
use netrunner.Prelude.{
  ℕ, suc, String, Bool, true, false, ◌||◌, ◌≡◌, ◌≢◌, ◌↔◌, eq_iff, Bool-cases, refl, ◌⊎◌, inl, inr,
  List, [], ◌∷◌, Option, none, some, arith, str_eq, if◌then◌else◌, All,
}
use netrunner.Prelude.Action.{
  Result, ok, err, wrong_type, no_genesis, genesis_unreadable, no_beacons,
  genesis_without_network_id, invalid_node, map_error, Result-cases, ◌then_check◌,
}
use netrunner.Prelude.Dict.{Dict, lookup}
use netrunner.Prelude.Decimal.{decimal}
use netrunner.Host.{Host, Value, as_float}
use netrunner.Config.Types.{NodeConfig, NetworkConfig}
use netrunner.Config.Node

abbrev pub genesis_network_id_key : String
genesis_network_id_key = "networkID"

-- the last test of `Validate`, after the loop over the nodes
unfoldable pub beacons_given : List NodeConfig → Result Bool → Result (Unit {0})
beacons_given cs (err e) = err e
beacons_given [] (ok seen) = ok tt
beacons_given (c ∷ cs) (ok seen) = if seen then ok tt else err no_beacons

module _ (H : Host) where
  open H use {unmarshal, float_to_u32}

  unfoldable pub number_of : Option ℕ → Result ℕ
  number_of none = err (wrong_type genesis_network_id_key)
  number_of (some bits) = ok (float_to_u32 bits)

  unfoldable pub network_id_entry : Option Value → Result ℕ
  unfolding number_of
  network_id_entry none = err genesis_without_network_id
  network_id_entry (some v) = number_of (as_float v)

  unfoldable pub network_id_in : Option (Dict Value) → Result ℕ
  unfolding network_id_entry
  network_id_in none = err genesis_unreadable
  network_id_in (some m) = network_id_entry (lookup genesis_network_id_key m)

  unfoldable pub network_id_from_genesis : String → Result ℕ
  unfolding network_id_in
  network_id_from_genesis genesis = network_id_in (unmarshal genesis)

  abbrev node_label : ℕ → NodeConfig → String
  node_label i c = if str_eq c.name "" then decimal i else c.name

  -- The loop over the nodes, from index `i`; `seen` is `someNodeIsBeacon`.
  unfoldable pub validate_nodes : ℕ → ℕ → Bool → List NodeConfig → Result Bool
  validate_nodes id i seen [] = ok seen
  validate_nodes id i seen (c ∷ cs) =
      map_error (invalid_node (node_label i c)) (Node.validate H c id)
      then_check validate_nodes id (suc i) (if c.is_beacon then true else seen) cs

  unfoldable pub validate_with : NetworkConfig → Result ℕ → Result (Unit {0})
  unfolding beacons_given validate_nodes
  validate_with c (err e) = err e
  validate_with c (ok id) = beacons_given c.node_configs (validate_nodes id 0 false c.node_configs)

  unfoldable pub validate : NetworkConfig → Result (Unit {0})
  unfolding validate_with
  validate c =
      if str_eq c.genesis ""
      then err no_genesis
      else validate_with c (network_id_from_genesis c.genesis)

abbrev any_beacon : List NodeConfig → Bool
any_beacon [] = false
any_beacon (c ∷ cs) = c.is_beacon || any_beacon cs

-- What `loadConfig` relies on.
pub record IsValidNetwork (H : Host) (c : NetworkConfig) (network_id : ℕ) : Type 0 where
  pub genesis_given : c.genesis ≢ ""
  pub genesis_id : network_id_from_genesis H c.genesis ≡ ok network_id
  pub nodes_valid : All (λ n. Node.validate H n network_id ≡ ok tt) c.node_configs
  pub some_beacon : (c.node_configs ≡ []) ⊎ (any_beacon c.node_configs ≡ true)

validate_nodes_inv :
    (H : Host) (id i : ℕ) (seen : Bool) (cs : List NodeConfig) (b : Bool)
    → validate_nodes H id i seen cs ≡ ok b
    → All (λ n. Node.validate H n id ≡ ok tt) cs × (b ≡ (seen || any_beacon cs))
unfolding validate_nodes
validate_nodes_inv H id i seen [] b h = (tt, ground arith)
validate_nodes_inv H id i seen (c ∷ cs) b h =
    ground (arith, validate_nodes_inv H id (suc i) (if c.is_beacon then true else seen) cs b)

validate_nodes-eq-ok :
    (H : Host) (id i : ℕ) (seen : Bool) (cs : List NodeConfig)
    → All (λ n. Node.validate H n id ≡ ok tt) cs
    → validate_nodes H id i seen cs ≡ ok (seen || any_beacon cs)
unfolding validate_nodes
validate_nodes-eq-ok H id i seen [] h = ground arith
validate_nodes-eq-ok H id i seen (c ∷ cs) h =
    ground (arith, validate_nodes-eq-ok H id (suc i) (if c.is_beacon then true else seen) cs h.1)

beacons_given_iff :
    (cs : List NodeConfig) (r : Result Bool)
    → (beacons_given cs r ≡ ok tt) ↔ ((b : Bool) × (r ≡ ok b) × ((cs ≡ []) ⊎ (b ≡ true)))
unfolding beacons_given
beacons_given_iff cs (err e) = (λ h. cc, λ h. cc)
beacons_given_iff [] (ok b) = (λ h. (b, refl, inl refl), λ h. refl)
beacons_given_iff (c ∷ cs) (ok b) = (λ h. (b, refl, inr (ground arith)), λ h. ground arith)

-- `Validate` accepts a network configuration exactly when its genesis is given and names a network
-- ID, every node's configuration is accepted for that ID, and there is a beacon among the nodes if
-- there is any node.
pub validate_network_iff :
    (H : Host) (c : NetworkConfig) → (validate H c ≡ ok tt) ↔ ((id : ℕ) × IsValidNetwork H c id)
unfolding validate validate_with
validate_network_iff H c = (accepted, λ (id, v). accepts id v)
  where
    accepted : validate H c ≡ ok tt → (id : ℕ) × IsValidNetwork H c id
    accepted h = elim (Bool-cases (str_eq c.genesis "")) [
      | inl e ↦ absurd (cc (rw e at h))
      | inr e ↦ elim (Result-cases (network_id_from_genesis H c.genesis)) [
        | inr (x, bad) ↦ absurd (cc (rw (e, bad) at h))
        | inl (id, good) ↦
            let (b, ran, some_beacon) = (beacons_given_iff _ _).0 (rw (e, good) at h) in
            let (all, any) = validate_nodes_inv H id 0 false c.node_configs b ran in
            (
              id,
              record {
                genesis_given = λ empty. ground (arith, eq_iff c.genesis "");
                genesis_id = good;
                nodes_valid = all;
                some_beacon = ground arith;
              },
            )
      ]
    ]

    accepts : (id : ℕ) → IsValidNetwork H c id → validate H c ≡ ok tt
    accepts id v = elim (Bool-cases (str_eq c.genesis "")) [
      | inl e ↦ absurd (v.genesis_given ((eq_iff c.genesis "").0 e))
      | inr e ↦
          rw (e, v.genesis_id, validate_with)
            ((beacons_given_iff _ _).1 (
              any_beacon c.node_configs,
              validate_nodes-eq-ok H id 0 false _ v.nodes_valid,
              v.some_beacon,
            ))
    ]
