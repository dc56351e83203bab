-- ===== src/Local/Chains/Transform.antt =====
-- local/blockchain.go: transforming subnets into elastic ones (`transformToElasticSubnets`).
use netrunner.Prelude.{String, List, Option, map}
use netrunner.Prelude.Action.{
  Action, pure, lift, or_raise, modify, for_all, no_subnet_id, ◌>>=◌, ◌>>◌,
}
use netrunner.Prelude.Dict.{insert}
use netrunner.Host.{Host}
use netrunner.Local.Types.{State}
use netrunner.Local.Add.{on_world}
use netrunner.Server.Types.{ElasticSubnetSpec}
use netrunner.Local.Chains.{Api, get_client_uri}
use netrunner.Local.Chains.Permissionless.{parse_id}

module _ (H : Host) (A : Api H) where
  open A use {Wallet, new_wallet, create_asset, export_asset, import_assets, transform_subnet}

  abbrev put_elastic_subnet : String → String → State H → State H
  put_elastic_subnet subnet tx s = record s {
    network = record s.network {
      subnet_id_to_elastic_subnet_id = insert subnet tx s.network.subnet_id_to_elastic_subnet_id;
    };
  }

  -- a subnet ID that is given, as an ID; the pointer is apart from the rest of the specification
  unfoldable pub preload :
      Option String × ElasticSubnetSpec → Action (State H) (String × ElasticSubnetSpec)
  preload (given, spec) = do
    text ← or_raise given no_subnet_id
    id ← parse_id H A text
    pure (id, spec)

  -- one round of the loop, with the IDs of the elastic subnet and of its asset
  unfoldable pub transform_one :
      Wallet → String × ElasticSubnetSpec → Action (State H) (String × String)
  transform_one w (subnet, spec) = do
    asset ← on_world H (create_asset w spec.asset_name spec.asset_symbol spec.max_supply)
    on_world H (export_asset w asset spec.max_supply)
    on_world H (import_assets w)
    tx ← on_world H (transform_subnet w subnet asset spec)
    modify (put_elastic_subnet subnet tx)
    pure (tx, asset)

  unfoldable pub transform_to_elastic_subnets :
      List (Option String × ElasticSubnetSpec) → Action (State H) (List String × List String)
  unfolding get_client_uri preload transform_one for_all
  transform_to_elastic_subnets specs s =
      (do
        uri ← lift (get_client_uri H s.network)
        subnets ← for_all preload specs
        w ← on_world H (new_wallet uri (map (λ x. x.0) subnets))
        made ← for_all (transform_one w) subnets
        pure (map (λ x. x.0) made, map (λ x. x.1) made))
        s
