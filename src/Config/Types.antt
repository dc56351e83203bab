-- ===== src/Config/Types.antt =====
-- The records `node.Config` and `network.Config`. A map that may be nil is an `Option`.
use netrunner.Prelude.{String, Bool, List, [], Option, none, some}
use netrunner.Prelude.Dict.{Dict}
use netrunner.Host.{Value}

pub record NodeConfig : Type 0 where
  pub name : String
  pub is_beacon : Bool
  pub staking_key : String
  pub staking_cert : String
  pub staking_signing_key : String
  pub config_file : String
  pub chain_config_files : Option (Dict String)
  pub upgrade_config_files : Option (Dict String)
  pub subnet_config_files : Option (Dict String)
  pub flags : Option (Dict Value)
  pub binary_path : String
  pub redirect_stdout : Bool
  pub redirect_stderr : Bool

pub record NetworkConfig : Type 0 where
  pub genesis : String
  pub node_configs : List NodeConfig
  pub flags : Option (Dict Value)
  pub binary_path : String
  pub chain_config_files : Option (Dict String)
  pub upgrade_config_files : Option (Dict String)
  pub subnet_config_files : Option (Dict String)

-- Reading a nil map is reading an empty one; `if m == nil { m = map{} }` makes it empty.
abbrev pub or_empty {ℓ} : {V : Type ℓ} → Option (Dict V) → Dict V
or_empty none = []
or_empty (some m) = m
