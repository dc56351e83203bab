-- ===== src/Local/Files.antt =====
-- local/helpers.go: a node's directory, and the files that it needs on startup.
use netrunner.Prelude.{ℕ, String, List, [], ◌∷◌, ◌++◌, ◌<>◌, str_eq, ◌==◌, if◌then◌else◌}
use netrunner.Prelude.Action.{Action, pure, or_raise, for_each, external, ◌>>=◌, ◌>>◌}
use netrunner.Prelude.Dict.{Dict, insert}
use netrunner.Host.{Host}
use netrunner.Config.{NodeConfig, or_empty}

pub record NodeFile : Type 0 where
  pub path_key : String
  pub flag_value : String
  pub path : String
  pub contents : String

-- for _, f := range files { flags[f.pathKey] = f.flagValue }
unfoldable pub flags_of_files : List NodeFile → Dict String → Dict String
flags_of_files [] flags = flags
flags_of_files (f ∷ fs) flags = flags_of_files fs (insert f.path_key f.flag_value flags)

module _ (H : Host) where
  open H use {World, keys, join, create_and_write, mkdir_all, mkdir, base64_decode, local_id}

  abbrev file_at : String → String → String → String → NodeFile
  file_at root key name contents = record {
    path_key = key;
    flag_value = join root name;
    path = join root name;
    contents = contents;
  }

  -- the table of files of `writeFiles`
  unfoldable pub startup_files : ℕ → String → String → NodeConfig → String → List NodeFile
  startup_files network_id genesis root c signing_key =
      (file_at root keys.staking_tls_key_path "staking.key" c.staking_key
        ∷ file_at root keys.staking_cert_path "staking.crt" c.staking_cert
        ∷ file_at root keys.staking_signer_key_path "signer.key" signing_key
        ∷ [])
      ++ ((if network_id == local_id
            then []
            else file_at root keys.genesis_config_file "genesis.json" genesis ∷ [])
          ++ (if str_eq c.config_file ""
              then []
              else file_at root keys.config_file "config.json" c.config_file ∷ []))

  unfoldable pub write_named : (String → String) → Dict String → Action World (Unit {0})
  write_named path = for_each (λ (name, contents). create_and_write (path name) contents)

  unfoldable pub write_files : ℕ → String → String → NodeConfig → Action World (Dict String)
  unfolding startup_files flags_of_files write_named for_each
  write_files network_id genesis root c = do
    signing_key ← or_raise (base64_decode c.staking_signing_key) (external "base64")
    let files = startup_files network_id genesis root c signing_key
    for_each (λ f. create_and_write f.path f.contents) files
    let chain_dir = join root "chainConfigs"
    mkdir_all chain_dir
    let subnet_dir = join root "subnetConfigs"
    mkdir_all subnet_dir
    write_named (λ alias. join (join chain_dir alias) "config.json") (or_empty c.chain_config_files)
    write_named (λ alias. join (join chain_dir alias) "upgrade.json")
        (or_empty c.upgrade_config_files)
    write_named (λ id. join subnet_dir (id <> ".json")) (or_empty c.subnet_config_files)
    pure (
        insert keys.subnet_config_dir subnet_dir
          (insert keys.chain_config_dir chain_dir (flags_of_files files [])))

  -- getNodeDir
  abbrev pub get_node_dir : String → String → String
  get_node_dir root name = join root name

  -- A directory that is there already is only logged.
  unfoldable pub make_node_dir : String → String → Action World String
  make_node_dir root name = do mkdir (get_node_dir root name); pure (get_node_dir root name)
