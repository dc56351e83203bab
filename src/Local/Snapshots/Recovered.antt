-- ===== src/Local/Snapshots/Recovered.antt =====
-- One node that is saved and loaded: what JSON makes of it, and how it is found again.
use mathlib.Core.Option
use netrunner.Prelude.{
  ℕ, ◌<◌, String, false, ◌≡◌, ◌∙◌, refl, sym, ap, inl, inr, [], ◌∷◌, some, arith, str_eq, map,
  Option-cases,
}
use netrunner.Prelude.Dict.{Dict, lookup}
use netrunner.Prelude.Pairs.{Chained}
use netrunner.Host.{Host, Value}
use netrunner.Config.{NodeConfig, NetworkConfig, or_empty}
use netrunner.Local.Types.{LocalNode, LocalNetwork}
use netrunner.Local.Ports.{given_port}
use netrunner.Local.Ops.Resume.{IsPlaced}
use netrunner.Local.Load.Outcome.{Stands}
use netrunner.Local.Snapshots.{Codec}
use netrunner.Local.Snapshots.Fixed.{NamesDistinct}
use netrunner.Local.Snapshots.Load.{Overrides}
use netrunner.Local.Snapshots.Restored.{Restored, Untouched}
use netrunner.Local.Snapshots.Saved.{PortKeysApart, SavedFrom}

unfoldable pub map_values : {V W : Type 0} → (V → W) → Dict V → Dict W
map_values f [] = []
map_values f ((k, v) ∷ m) = (k, f v) ∷ map_values f m

lookup-map_values :
    {V W : Type 0} (f : V → W) (k : String) (m : Dict V)
    → lookup k (map_values f m) ≡ Option.map f (lookup k m)
unfolding map_values lookup
lookup-map_values f k [] = refl
lookup-map_values f k ((j, v) ∷ m) = ground (arith, lookup-map_values f k m)

abbrev pub json_node : (Value → Value) → NodeConfig → NodeConfig
json_node json c = record c { flags = Option.map (map_values json) c.flags }

-- What decoding JSON makes of a configuration: the values of the flags have other types then.
abbrev pub json_config : (Value → Value) → NetworkConfig → NetworkConfig
json_config json c = record c {
  flags = Option.map (map_values json) c.flags;
  node_configs = map (json_node json) c.node_configs;
}

-- encoding/json on this configuration: decoding gives it back, with a number for a port that is
-- read as that port.
pub record Decodes (H : Host) (J : Codec) (c : NetworkConfig) : Type 0 where
  pub json : Value → Value
  pub decoded : J.unmarshal_config (J.marshal_config c) ≡ some (json_config json c)
  pub ports : (p : ℕ) → p < 65536 → given_port H (json (Value.uint16 p)) ≡ some p

-- `m` is the node `n` again, in the network `ln`.
pub record Recovered (H : Host) (root_dir : String) (n m : LocalNode H) : Type 0 where
  pub live : m.paused ≡ false
  pub name : m.name ≡ n.name
  pub node_id : m.node_id ≡ n.node_id
  pub api_port : m.api_port ≡ n.api_port
  pub p2p_port : m.p2p_port ≡ n.p2p_port
  pub db_dir : m.db_dir ≡ H.join (H.join root_dir n.name) "db"

-- The flags that matter are different, and the caller does not set other ports.
pub record KeysApart (H : Host) (o : Overrides) : Type 0 where
  pub saved : PortKeysApart H
  pub renamed : NamesDistinct H.keys
  pub api_port : Untouched H o H.keys.http_port
  pub p2p_port : Untouched H o H.keys.staking_port
  pub db : str_eq H.keys.plugin_dir H.keys.db_path ≡ false

lookup-json_node :
    (json : Value → Value) (c : NodeConfig) (k : String) (v : Value)
    → lookup k (or_empty c.flags) ≡ some v
    → lookup k (or_empty (json_node json c).flags) ≡ some (json v)
unfolding lookup
lookup-json_node json c k v h = elim (Option-cases c.flags) [
  | inl e ↦ absurd (ground arith)
  | inr (flags, e) ↦ ground (arith, lookup-map_values json k flags)
]

abbrev pub Links :
    (H : Host)
    → LocalNetwork H
    → LocalNetwork H
    → Overrides
    → (Value → Value)
    → LocalNode H
    → NodeConfig
    → Type 0
Links H a b o json n d =
    Chained (SavedFrom H) (Chained (λ c e. e ≡ json_node json c) (Restored H a o)) n d
    × Stands H b d

pub one-Recovered :
    (H : Host) (a b : LocalNetwork H) (o : Overrides) (json : Value → Value) (n : LocalNode H)
    (d : NodeConfig)
    → KeysApart H o
    → ((p : ℕ) → p < 65536 → given_port H (json (Value.uint16 p)) ≡ some p)
    → b.reassign_ports_if_used ≡ false
    → IsPlaced H n
    → Links H a b o json n d
    → (m : LocalNode H) × (lookup m.name b.nodes ≡ some m) × Recovered H a.root_dir n m
one-Recovered H a b o json n d keys ports fixed placed
      ((c, saved, (e, decoded, r)), (m, there, q)) =
    let name : d.name ≡ n.name = r.same.0 ∙ ap (λ x. x.name) decoded ∙ saved.name ∙ placed.named in
    let key : d.staking_key ≡ n.config.staking_key =
      r.same.1 ∙ ap (λ x. x.staking_key) decoded ∙ saved.staking_key in
    let cert : d.staking_cert ≡ n.config.staking_cert =
      r.same.2 ∙ ap (λ x. x.staking_cert) decoded ∙ saved.staking_cert in
    let staked =
      q.staked (λ x. placed.keyed (sym key ∙ x)) (λ x. placed.certified (sym cert ∙ x)) in
    let named = q.named (λ x. placed.nonempty (sym name ∙ x)) in
    (
      m,
      there,
      record {
        live = q.live;
        name = named ∙ name;
        node_id = ground (arith, q.identified, placed.identified, staked, key, cert);
        api_port =
            q.api_port fixed (json (Value.uint16 n.api_port)) n.api_port
              (r.flags _ keys.api_port
                ∙ ap (λ x. lookup H.keys.http_port (or_empty x.flags)) decoded
                ∙ lookup-json_node json c H.keys.http_port (Value.uint16 n.api_port) saved.api_port)
              (ports n.api_port placed.api_port);
        p2p_port =
            q.p2p_port fixed (json (Value.uint16 n.p2p_port)) n.p2p_port
              (r.flags _ keys.p2p_port
                ∙ ap (λ x. lookup H.keys.staking_port (or_empty x.flags)) decoded
                ∙ lookup-json_node json c H.keys.staking_port (Value.uint16 n.p2p_port)
                    saved.p2p_port)
              (ports n.p2p_port placed.p2p_port);
        db_dir =
            q.db_dir _ (r.db_dir keys.db)
            ∙ ap (λ x. H.join (H.join a.root_dir x) "db") (sym r.same.0 ∙ name);
      },
    )
