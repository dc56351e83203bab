-- ===== src/Local/Snapshots/Saved.antt =====
-- What `SaveSnapshot` writes.
use mathlib.Core.Option
use netrunner.Prelude.{
  String, false, ◌≡◌, refl, inl, inr, List, Option, none, some, arith, str_eq, eq_refl,
  Option-cases,
}
use netrunner.Prelude.Action.{ok, Result-cases, collect}
use netrunner.Prelude.Dict.{Dict, lookup, insert, lookup-insert, lookup-remove}
use netrunner.Prelude.Pairs.{Pairwise, Pairwise-map, Chained, Pairwise-Chained, collect-Pairwise}
use netrunner.Host.{Host, Value}
use netrunner.Config.{NodeConfig, or_empty}
use netrunner.Local.Types.{LocalNode}
use netrunner.Local.Snapshots.Save.{
  values, with_ports, ported, without_dirs, movable, saved_configs,
}

-- The keys of a node's ports are not those of its directories, nor the same.
pub record PortKeysApart (H : Host) : Type 0 where
  pub http_data : str_eq H.keys.data_dir H.keys.http_port ≡ false
  pub http_logs : str_eq H.keys.logs_dir H.keys.http_port ≡ false
  pub p2p_data : str_eq H.keys.data_dir H.keys.staking_port ≡ false
  pub p2p_logs : str_eq H.keys.logs_dir H.keys.staking_port ≡ false
  pub ports : str_eq H.keys.staking_port H.keys.http_port ≡ false

-- `c` is what is saved of the node `n`: its name and staking files, and the ports that it has.
pub record SavedFrom (H : Host) (n : LocalNode H) (c : NodeConfig) : Type 0 where
  pub name : c.name ≡ n.config.name
  pub staking_key : c.staking_key ≡ n.config.staking_key
  pub staking_cert : c.staking_cert ≡ n.config.staking_cert
  pub api_port : lookup H.keys.http_port (or_empty c.flags) ≡ some (Value.uint16 n.api_port)
  pub p2p_port : lookup H.keys.staking_port (or_empty c.flags) ≡ some (Value.uint16 n.p2p_port)

lookup-without_dirs :
    (H : Host) (k : String) (flags : Dict Value)
    → str_eq H.keys.data_dir k ≡ false
    → str_eq H.keys.logs_dir k ≡ false
    → lookup k (without_dirs H flags) ≡ lookup k flags
unfolding without_dirs
lookup-without_dirs H k flags d l = simp (lookup-remove, d, l)

ported-SavedFrom :
    (H : Host) (n : LocalNode H) (c : NodeConfig)
    → PortKeysApart H
    → ported H n ≡ ok c
    → SavedFrom H n c
unfolding ported with_ports
ported-SavedFrom H n c apart h = elim (Option-cases n.config.flags) [
  | inl e ↦ absurd (ground arith)
  | inr (flags, e) ↦
      let with_api = insert H.keys.http_port (Value.uint16 n.api_port) flags in
      record {
        name = ground arith;
        staking_key = ground arith;
        staking_cert = ground arith;
        api_port = ground (
          arith,
          apart.ports,
          eq_refl H.keys.http_port,
          lookup-insert H.keys.staking_port H.keys.http_port (Value.uint16 n.p2p_port) with_api,
          lookup-insert H.keys.http_port H.keys.http_port (Value.uint16 n.api_port) flags,
        );
        p2p_port = ground (
          arith,
          eq_refl H.keys.staking_port,
          lookup-insert H.keys.staking_port H.keys.staking_port (Value.uint16 n.p2p_port) with_api,
        );
      }
]

movable_lem :
    (H : Host) (c d : NodeConfig)
    → movable H c ≡ ok d
    → (d.name ≡ c.name)
      × (d.staking_key ≡ c.staking_key)
      × (d.staking_cert ≡ c.staking_cert)
      × (d.flags ≡ Option.map (without_dirs H) c.flags)
unfolding movable
movable_lem H c d h = (ground arith, ground arith, ground arith, ground arith)

lookup-movable :
    (H : Host) (k : String) (flags : Option (Dict Value))
    → str_eq H.keys.data_dir k ≡ false
    → str_eq H.keys.logs_dir k ≡ false
    → lookup k (or_empty (Option.map (without_dirs H) flags)) ≡ lookup k (or_empty flags)
unfolding lookup
lookup-movable H k none d l = refl
lookup-movable H k (some flags) d l = lookup-without_dirs H k flags d l

one-SavedFrom :
    (H : Host)
    → PortKeysApart H
    → (n : LocalNode H) (c : NodeConfig)
    → Chained (λ (m : LocalNode H) d. ported H m ≡ ok d) (λ d e. movable H d ≡ ok e) n c
    → SavedFrom H n c
one-SavedFrom H apart n c (d, first, second) =
    let saved = ported-SavedFrom H n d apart first in
    let same = movable_lem H d c second in
    record {
      name = ground (arith, same, saved.name);
      staking_key = ground (arith, same, saved.staking_key);
      staking_cert = ground (arith, same, saved.staking_cert);
      api_port = ground (
        arith,
        same,
        saved.api_port,
        lookup-movable H H.keys.http_port d.flags apart.http_data apart.http_logs,
      );
      p2p_port = ground (
        arith,
        same,
        saved.p2p_port,
        lookup-movable H H.keys.staking_port d.flags apart.p2p_data apart.p2p_logs,
      );
    }

pub saved_configs-Pairwise :
    (H : Host) (nodes : Dict (LocalNode H)) (cs : List NodeConfig)
    → PortKeysApart H
    → saved_configs H nodes ≡ ok cs
    → Pairwise (SavedFrom H) (values nodes) cs
unfolding saved_configs
saved_configs-Pairwise H nodes cs apart h =
    elim (Result-cases (collect (ported H) (values nodes))) [
      | inr (e, x) ↦ absurd (ground arith)
      | inl (ds, x) ↦ Pairwise-map _ _ (one-SavedFrom H apart) (values nodes) cs (
          Pairwise-Chained _ _ (values nodes) ds cs (collect-Pairwise _ (values nodes) ds x)
            (collect-Pairwise _ ds cs (ground arith)))
    ]
