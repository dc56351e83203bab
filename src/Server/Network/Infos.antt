-- ===== src/Server/Network/Infos.antt =====
-- What `updateNodeInfo` of server/network.go finds of the nodes.
use netrunner.Prelude.{
  String, true, false, List, ◌≡◌, refl, ap, [], ◌∷◌, Option, none, some, arith, eq_iff, or_else,
  ◌<>◌, All, ◌∙◌,
}
use netrunner.Prelude.Action.{
  Result, ok, err, or_raise, refuse_if, network_stopped, panic, ◌>>=◌, ◌>>◌, for_each,
}
use netrunner.Prelude.Dict.{Dict, lookup, insert, keys, distinct, lookup-insert, has→contains-keys}
use netrunner.Prelude.Decimal.{decimal}
use netrunner.Host.{Host}
use netrunner.Local.Chains.{host_of}
use netrunner.Local.Types.{LocalNode, LocalNetwork}
use netrunner.Server.Types.{NodeInfo}
use netrunner.Server.Network.Scraped.{Targets, target_lines, HasUri, scraped-Targets, insert-All}
use netrunner.Server.Network.{
  prometheus_conf_common, Kept, get_flag, describe_nodes, describe, noted, note_node,
  generate_prometheus_conf, update_node_info,
}

abbrev text_or_nil : Result String → String
text_or_nil (ok t) = t
text_or_nil (err e) = ""

module _ (H : Host) where
  -- the subnets that a node tracks can be read
  abbrev pub IsReadable : LocalNode H → Type 0
  IsReadable n = (tracked : String) × (get_flag H n H.keys.track_subnets ≡ ok tracked)

  abbrev pub AreReadable : Dict (LocalNode H) → Type 0
  AreReadable [] = Unit
  AreReadable ((k, n) ∷ nodes) = IsReadable n × AreReadable nodes

  abbrev pub tracked_by : LocalNode H → String
  tracked_by n = text_or_nil (get_flag H n H.keys.track_subnets)

  abbrev pub info_of : Option (LocalNode H) → Option NodeInfo
  info_of none = none
  info_of (some n) = some (record {
    name = n.name;
    uri = "http://" <> host_of n <> ":" <> decimal n.api_port;
    id = n.node_id;
    exec_path = n.config.binary_path;
    log_dir = n.logs_dir;
    db_dir = n.db_dir;
    config = n.config.config_file;
    plugin_dir = n.plugin_dir;
    whitelisted_subnets = tracked_by n;
    paused = n.paused;
  })

  info_of-some : (n : LocalNode H) → info_of (some n) ≡ some (describe H n (tracked_by n))
  unfolding describe
  info_of-some n = refl

  note_node-readable :
      (k : String) (n : LocalNode H) (s : Kept H)
      → IsReadable n
      → note_node H (k, n) s ≡ (ok tt, noted H k n (tracked_by n) s)
  unfolding note_node
  note_node-readable k n s (tracked, e) = rw e refl

  node_infos-noted :
      (k : String) (n : LocalNode H) (t : String) (s : Kept H)
      → (noted H k n t s).node_infos ≡ insert k (describe H n t) s.node_infos
  unfolding noted
  node_infos-noted k n t s = refl

  world-noted :
      (k : String) (n : LocalNode H) (t : String) (s : Kept H) → (noted H k n t s).world ≡ s.world
  unfolding noted
  world-noted k n t s = refl

  noted-HasUri :
      (k : String) (n : LocalNode H) (t : String) (s : Kept H)
      → All HasUri s.node_infos
      → All HasUri (noted H k n t s).node_infos
  unfolding noted describe
  noted-HasUri k n t s before =
      insert-All HasUri k (describe H n t) s.node_infos
        (host_of n <> ":" <> decimal n.api_port, refl) before

  -- one more node in front, whose name the others do not have
  lookup-more :
      (k name : String) (n : LocalNode H) (nodes : Dict (LocalNode H)) (infos : Dict NodeInfo)
      → distinct (keys ((k, n) ∷ nodes)) ≡ true
      → or_else
          (info_of (lookup name nodes))
          (lookup name (insert k (describe H n (tracked_by n)) infos))
        ≡ or_else (info_of (lookup name ((k, n) ∷ nodes))) (lookup name infos)
  unfolding lookup keys
  lookup-more k name n nodes infos single = ground (
    arith,
    lookup-insert k name (describe H n (tracked_by n)) infos,
    has→contains-keys k nodes,
    eq_iff k name,
    info_of-some n,
  )

  distinct-rest :
      (k : String) (n : LocalNode H) (nodes : Dict (LocalNode H))
      → distinct (keys ((k, n) ∷ nodes)) ≡ true
      → distinct (keys nodes) ≡ true
  unfolding keys
  distinct-rest k n nodes single = ground arith

  note_nodes-lookup :
      (nodes : Dict (LocalNode H)) (s : Kept H)
      → AreReadable nodes
      → distinct (keys nodes) ≡ true
      → ((for_each (note_node H) nodes s).0 ≡ ok tt)
        × ((for_each (note_node H) nodes s).1.world ≡ s.world)
        × ((name : String)
            → lookup name (for_each (note_node H) nodes s).1.node_infos
              ≡ or_else (info_of (lookup name nodes)) (lookup name s.node_infos))
  unfolding for_each lookup
  note_nodes-lookup [] s readable single = (refl, refl, λ name. refl)
  note_nodes-lookup ((k, n) ∷ nodes) s (first, readable) single =
      let t = noted H k n (tracked_by n) s in
      let rest = note_nodes-lookup nodes t readable (distinct-rest k n nodes single) in
      rw (note_node-readable k n s first) (
        rest.0,
        rest.1 ∙ world-noted k n (tracked_by n) s,
        λ name.
            rest.2 name
            ∙ rw (node_infos-noted k n (tracked_by n) s)
                (lookup-more k name n nodes s.node_infos single),
      )

  or_else-none : (o : Option NodeInfo) → or_else o none ≡ o
  or_else-none o = ground arith

  abbrev fresh : Kept H → Kept H
  fresh s = record s { node_infos = [] }

  update_node_info-ran :
      (s : Kept H) (ln : LocalNetwork H)
      → s.network ≡ some ln
      → ln.stopping ≡ false
      → update_node_info H s ≡ describe_nodes H ln.nodes s
  unfolding update_node_info
  update_node_info-ran s ln there running =
      ap
        (λ o.
          (or_raise o panic >>= λ n.
          refuse_if n.stopping network_stopped >> describe_nodes H n.nodes)
            s)
        there
      ∙ ap (λ b. (refuse_if b network_stopped >> describe_nodes H ln.nodes) s) running

  describe_nodes-ran :
      (s : Kept H) (nodes : Dict (LocalNode H))
      → (for_each (note_node H) nodes (fresh s)).0 ≡ ok tt
      → describe_nodes H nodes s
        ≡ generate_prometheus_conf H (for_each (note_node H) nodes (fresh s)).1
  unfolding describe_nodes
  describe_nodes-ran s nodes fine = rw fine refl

  note_nodes-HasUri :
      (nodes : Dict (LocalNode H)) (s : Kept H)
      → AreReadable nodes
      → All HasUri s.node_infos
      → All HasUri (for_each (note_node H) nodes s).1.node_infos
  unfolding for_each
  note_nodes-HasUri [] s readable before = before
  note_nodes-HasUri ((k, n) ∷ nodes) s (first, readable) before =
      let t = noted H k n (tracked_by n) s in
      rw (note_node-readable k n s first)
        (note_nodes-HasUri nodes t readable (noted-HasUri k n (tracked_by n) s before))

  -- Where the network is there and was not stopped, no two of its nodes have the same name, and what
  -- each tracks can be read, the server then has exactly its nodes, each described as it is; and the
  -- file for Prometheus is written with the common text and one line for each of these that is not
  -- paused, with its address; the call fails exactly if this file cannot be written.
  pub update_node_info_lem :
      (s : Kept H) (ln : LocalNetwork H)
      → s.network ≡ some ln
      → ln.stopping ≡ false
      → distinct (keys ln.nodes) ≡ true
      → AreReadable ln.nodes
      → let t = (update_node_info H s).1 in
        ((name : String) → lookup name t.node_infos ≡ info_of (lookup name ln.nodes))
        × ((ts : List String) × Targets t.node_infos ts
            × (((update_node_info H s).0, t.world)
                ≡ H.create_and_write t.prometheus_conf_path
                    (prometheus_conf_common <> target_lines ts)
                    s.world))
  unfolding lookup generate_prometheus_conf
  update_node_info_lem s ln there running single readable =
      let (fine, world, infos) = note_nodes-lookup ln.nodes (fresh s) readable single in
      let u = (for_each (note_node H) ln.nodes (fresh s)).1 in
      let (ts, listed, text) =
        scraped-Targets u.node_infos (note_nodes-HasUri ln.nodes (fresh s) readable tt) in
      rw (update_node_info-ran s ln there running, describe_nodes-ran s ln.nodes fine)
        (
          λ name. infos name ∙ or_else-none (info_of (lookup name ln.nodes)),
          (ts, listed, rw (text, world) refl),
        )
