-- ===== src/Config/Node.antt =====
-- network/node/node.go: validation of a node's configuration.
use netrunner.Prelude.{
  ℕ, String, ◌≡◌, refl, ◌⊎◌, ◌↔◌, Option, none, some, arith, str_eq, ◌==◌, if◌then◌else◌, is_some,
  ◌≢◌, eq_iff, eq_refl, Option-cases, Bool-cases, inl, inr,
}
use netrunner.Prelude.Action.{
  Result, ok, err, wrong_type, network_id_mismatch, config_file_unreadable, no_staking_key,
  no_staking_cert, ◌then_check◌,
}
use netrunner.Prelude.Dict.{Dict, lookup}
use netrunner.Host.{Host, Value, as_text, as_float}
use netrunner.Config.Types.{NodeConfig}

-- `if v, ok := m[key]; ok { if _, ok := v.(string); !ok { return error } }`
unfoldable pub check_text : String → Option Value → Result (Unit {0})
check_text key none = ok tt
check_text key (some v) = if is_some (as_text v) then ok tt else err (wrong_type key)

unfoldable pub check_float : String → Option Value → Result (Unit {0})
check_float key none = ok tt
check_float key (some v) = if is_some (as_float v) then ok tt else err (wrong_type key)

module _ (H : Host) where
  open H use {keys, unmarshal, float_to_u32}

  unfoldable pub same_network : ℕ → Option ℕ → Result (Unit {0})
  same_network expected none = err (wrong_type keys.network_name)
  same_network expected (some bits) =
      if float_to_u32 bits == expected then ok tt else err network_id_mismatch

  unfoldable pub check_network_id : ℕ → Option Value → Result (Unit {0})
  unfolding same_network
  check_network_id expected none = ok tt
  check_network_id expected (some v) = same_network expected (as_float v)

  unfoldable pub check_config_map : ℕ → Option (Dict Value) → Result (Unit {0})
  check_config_map expected none = err config_file_unreadable
  check_config_map expected (some m) =
      check_network_id expected (lookup keys.network_name m)
      then_check check_text keys.db_path (lookup keys.db_path m)
      then_check check_text keys.logs_dir (lookup keys.logs_dir m)
      then_check check_float keys.http_port (lookup keys.http_port m)
      then_check check_float keys.staking_port (lookup keys.staking_port m)

  unfoldable pub validate_config_file : String → ℕ → Result (Unit {0})
  unfolding check_config_map
  validate_config_file file expected =
      if str_eq file "" then ok tt else check_config_map expected (unmarshal file)

  unfoldable pub validate : NodeConfig → ℕ → Result (Unit {0})
  unfolding validate_config_file
  validate c expected =
      if str_eq c.staking_key ""
      then err no_staking_key
      else if str_eq c.staking_cert ""
      then err no_staking_cert
      else validate_config_file c.config_file expected

-- Absent, or a value of the type that the check asks for.
abbrev pub TextIfGiven : Option Value → Type 0
TextIfGiven o = (o ≡ none) ⊎ ((s : String) × (o ≡ some (Value.text s)))

abbrev pub FloatIfGiven : Option Value → Type 0
FloatIfGiven o = (o ≡ none) ⊎ ((b : ℕ) × (o ≡ some (Value.float b)))

-- What an accepted config file holds: each of these values is absent or of the type that is
-- checked, and the network ID, if there is one, is that of the genesis.
pub record IsWellTyped (H : Host) (expected : ℕ) (m : Dict Value) : Type 0 where
  pub network_name :
      (lookup H.keys.network_name m ≡ none)
      ⊎ ((b : ℕ) × (lookup H.keys.network_name m ≡ some (Value.float b))
          × (H.float_to_u32 b ≡ expected))
  pub db_path : TextIfGiven (lookup H.keys.db_path m)
  pub logs_dir : TextIfGiven (lookup H.keys.logs_dir m)
  pub http_port : FloatIfGiven (lookup H.keys.http_port m)
  pub staking_port : FloatIfGiven (lookup H.keys.staking_port m)

check_text_iff : (k : String) (o : Option Value) → (check_text k o ≡ ok tt) ↔ TextIfGiven o
unfolding check_text
check_text_iff k o = (λ h. ground arith, λ h. ground arith)

check_float_iff : (k : String) (o : Option Value) → (check_float k o ≡ ok tt) ↔ FloatIfGiven o
unfolding check_float
check_float_iff k o = (λ h. ground arith, λ h. ground arith)

check_network_id_iff :
    (H : Host) (n : ℕ) (o : Option Value)
    → (check_network_id H n o ≡ ok tt)
      ↔ ((o ≡ none) ⊎ ((b : ℕ) × (o ≡ some (Value.float b)) × (H.float_to_u32 b ≡ n)))
unfolding check_network_id
check_network_id_iff H n o = (λ h. ground arith, λ h. ground arith)

then_check_iff :
    (r s : Result (Unit {0})) → ((r then_check s) ≡ ok tt) ↔ ((r ≡ ok tt) × (s ≡ ok tt))
then_check_iff (ok tt) s = (λ h. (refl, h), λ h. h.1)
then_check_iff (err e) s = (λ h. cc, λ h. cc)

-- The checks pass exactly for a config file that parses to a well typed object.
check_config_map_iff :
    (H : Host) (n : ℕ) (m : Dict Value)
    → (check_config_map H n (some m) ≡ ok tt) ↔ IsWellTyped H n m
unfolding check_config_map
check_config_map_iff H n m = (
  λ h.
      let (a, h1) = (then_check_iff _ _).0 h in
      let (b, h2) = (then_check_iff _ _).0 h1 in
      let (c, h3) = (then_check_iff _ _).0 h2 in
      let (d, e) = (then_check_iff _ _).0 h3 in
      record {
        network_name = (check_network_id_iff H n _).0 a;
        db_path = (check_text_iff _ _).0 b;
        logs_dir = (check_text_iff _ _).0 c;
        http_port = (check_float_iff _ _).0 d;
        staking_port = (check_float_iff _ _).0 e;
      },
  λ w. (then_check_iff _ _).1 (
    (check_network_id_iff H n _).1 w.network_name,
    (then_check_iff _ _).1 (
      (check_text_iff _ _).1 w.db_path,
      (then_check_iff _ _).1 (
        (check_text_iff _ _).1 w.logs_dir,
        (then_check_iff _ _).1
            ((check_float_iff _ _).1 w.http_port, (check_float_iff _ _).1 w.staking_port),
      ),
    ),
  ),
)

validate_config_file-accepts :
    (H : Host) (file : String) (n : ℕ)
    → (file ≡ "") ⊎ ((m : Dict Value) × (H.unmarshal file ≡ some m) × IsWellTyped H n m)
    → validate_config_file H file n ≡ ok tt
unfolding validate_config_file
validate_config_file-accepts H file n (inl e) = rw e
validate_config_file-accepts H file n (inr (m, parsed, w)) =
    let good = (check_config_map_iff H n m).1 w in
    elim (Bool-cases (str_eq file "")) [ inl e ↦ rw e | inr e ↦ rw (e, parsed) good ]

validate_config_file_inv :
    (H : Host) (file : String) (n : ℕ)
    → validate_config_file H file n ≡ ok tt
    → (file ≡ "") ⊎ ((m : Dict Value) × (H.unmarshal file ≡ some m) × IsWellTyped H n m)
unfolding validate_config_file check_config_map
validate_config_file_inv H file n h = elim (Bool-cases (str_eq file "")) [
  | inl e ↦ inl ((eq_iff file "").0 e)
  | inr e ↦ elim (Option-cases (H.unmarshal file)) [
    | inl bad ↦ absurd (cc (rw (e, bad, check_config_map) at h))
    | inr (m, parsed) ↦ inr (m, parsed, (check_config_map_iff H n m).0 (rw (e, parsed) at h))
  ]
]

-- `Validate` accepts a node's configuration exactly when both staking files are given and the
-- config file is empty, or parses to an object in which the network ID, if given, is a number
-- equal to the genesis' network ID, the database and log directories, if given, are texts, and the
-- two ports, if given, are numbers.
pub validate_node_iff :
    (H : Host) (c : NodeConfig) (n : ℕ)
    → (validate H c n ≡ ok tt) ↔ (
        (c.staking_key ≢ "")
        × (c.staking_cert ≢ "")
        × ((c.config_file ≡ "")
            ⊎ ((m : Dict Value) × (H.unmarshal c.config_file ≡ some m) × IsWellTyped H n m)))
unfolding validate
validate_node_iff H c n = (
  λ h. (
    ground (arith, eq_refl c.staking_key, eq_iff c.staking_key ""),
    ground (arith, eq_refl c.staking_cert, eq_iff c.staking_cert ""),
    validate_config_file_inv H c.config_file n (ground arith),
  ),
  λ (key, cert, file).
      let good = validate_config_file-accepts H c.config_file n file in
      ground (arith, eq_iff c.staking_key "", eq_iff c.staking_cert ""),
)
