-- ===== src/Host/Values.antt =====
-- `interface{}` as the program uses it: the values of a JSON document, and the two Go integers
-- that the program itself puts into a flag map.
use netrunner.Prelude.{ℕ, String, Option, none, some}

pub data Value : Type 0 where
  null : Value
  text : String → Value
  -- a float64, by its bits: what encoding/json makes of a number
  float : ℕ → Value
  -- an int, as the two's complement of 64 bits
  int : ℕ → Value
  uint16 : ℕ → Value
  -- a Boolean, an array or an object, by its JSON text; the program never looks inside
  other : String → Value

-- v, ok := x.(string)
abbrev pub as_text : Value → Option String
as_text (text s) = some s
as_text _ = none

-- v, ok := x.(float64)
abbrev pub as_float : Value → Option ℕ
as_float (float b) = some b
as_float _ = none

-- The keys of luxd flags, the constants of github.com/luxdefi/node/config that the program uses.
pub record Keys : Type 0 where
  pub network_name : String
  pub data_dir : String
  pub db_path : String
  pub logs_dir : String
  pub http_host : String
  pub http_port : String
  pub staking_port : String
  pub plugin_dir : String
  pub track_subnets : String
  pub bootstrap_ips : String
  pub bootstrap_ids : String
  pub staking_tls_key_path : String
  pub staking_cert_path : String
  pub staking_signer_key_path : String
  pub genesis_config_file : String
  pub config_file : String
  pub chain_config_dir : String
  pub subnet_config_dir : String
