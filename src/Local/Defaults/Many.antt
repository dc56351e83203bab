-- ===== src/Local/Defaults/Many.antt =====
-- A default configuration with any number of nodes: how many there are, and that they do not share
-- ports.
use netrunner.Prelude.{
  ℕ, zero, suc, ◌+◌, ◌-◌, ◌*◌, ◌%◌, ◌≤◌, ◌<◌, String, false, ◌≡◌, ◌≢◌, refl, sym, inl, inr, List,
  [], ◌∷◌, ◌++◌, Option, some, none, arith, str_eq, eq_refl, ltb, ltb→lt, if◌then◌else◌, length,
  length-append, take, length-take, take_all, append_nil, last, All, Bool-cases, Option-cases,
}
use netrunner.Prelude.Action.{ok, Result-cases}
use netrunner.Prelude.Dict.{lookup}
use netrunner.Host.{Host, Value}
use netrunner.Config.{NodeConfig, NetworkConfig, or_empty}
use netrunner.Local.Ports.{u16, given_port}
use netrunner.Local.Defaults.{
  int_add, reference_port, extra_node, extra_nodes, missing_nodes, new_default_config,
  new_default_config_n_nodes,
}

-- The node `c` is the one that round `i` adds: that of the reference node, with a certificate and a key
-- that were made for it, and no flags but the ports, raised by 2 for each node added so far.
abbrev pub IsExtra : (H : Host) → NodeConfig → ℕ → ℕ → ℕ → NodeConfig → Type 0
IsExtra H ref api_port p2p_port i c =
    (made : String × String) × (w : H.World) × ((H.new_cert_and_key w).0 ≡ ok made)
    × (c ≡ record ref {
      staking_cert = made.0;
      staking_key = made.1;
      flags = some (
          (H.keys.http_port, Value.int ((api_port + suc i * 2) % 18446744073709551616))
          ∷ (H.keys.staking_port, Value.int ((p2p_port + suc i * 2) % 18446744073709551616))
          ∷ []);
    })

-- The nodes `cs` are additional ones, from round `i` of the loop.
abbrev pub Extras : (H : Host) → NodeConfig → ℕ → ℕ → ℕ → List NodeConfig → Type 0
Extras H ref api_port p2p_port i [] = Unit
Extras H ref api_port p2p_port i (c ∷ cs) =
    IsExtra H ref api_port p2p_port i c × Extras H ref api_port p2p_port (suc i) cs

-- `cs` are the nodes of the default configuration `ds` and additional ones after its last node.
pub record Extends (H : Host) (ds cs : List NodeConfig) : Type 0 where
  pub ref : NodeConfig
  pub api_port : ℕ
  pub p2p_port : ℕ
  pub more : List NodeConfig
  pub is_last : last ds ≡ some ref
  pub ref_api_port : reference_port H H.keys.http_port ref ≡ ok api_port
  pub ref_p2p_port : reference_port H H.keys.staking_port ref ≡ ok p2p_port
  pub appended : cs ≡ ds ++ more
  pub extras : Extras H ref api_port p2p_port 0 more
  -- every additional node has the signing key of the last node
  pub signing_keys : All (λ c. c.staking_signing_key ≡ ref.staking_signing_key) more

extra_nodes-Extras :
    (H : Host) (ref : NodeConfig) (api_port p2p_port i n : ℕ) (w : H.World) (cs : List NodeConfig)
    → (extra_nodes H ref api_port p2p_port i n w).0 ≡ ok cs
    → (length cs ≡ n)
      × Extras H ref api_port p2p_port i cs
      × All (λ c. c.staking_signing_key ≡ ref.staking_signing_key) cs
unfolding extra_nodes extra_node
extra_nodes-Extras H ref api_port p2p_port i zero w [] h = (refl, tt, tt)
extra_nodes-Extras H ref api_port p2p_port i zero w (c ∷ cs) h = absurd (ground arith)
extra_nodes-Extras H ref api_port p2p_port i (suc n) w cs h =
    elim (Result-cases (H.new_cert_and_key w).0) [
      | inr (e, x) ↦ absurd (ground arith)
      | inl (made, x) ↦
          let w1 = (H.new_cert_and_key w).1 in
          elim (Result-cases (extra_nodes H ref api_port p2p_port (suc i) n w1).0) [
            | inr (e, y) ↦ absurd (ground arith)
            | inl (more, y) ↦
                let (count, extras, signed) =
                  extra_nodes-Extras H ref api_port p2p_port (suc i) n w1 more y in
                let shape : extra_node H ref api_port p2p_port i made ∷ more ≡ cs = ground arith in
                rw (sym shape) (ground (arith, count), ((made, w, x, refl), extras), (refl, signed))
          ]
    ]

missing_nodes-Extends :
    (H : Host) (ds : List NodeConfig) (n : ℕ) (w : H.World) (more : List NodeConfig)
    → (missing_nodes H ds n w).0 ≡ ok more
    → length ds < n
    → Extends H ds (ds ++ more) × (length more ≡ n - length ds)
unfolding missing_nodes
missing_nodes-Extends H ds n w more h lt = elim (Option-cases (last ds)) [
  | inl e ↦ absurd (ground arith)
  | inr (ref, e) ↦ elim (Result-cases (reference_port H H.keys.http_port ref)) [
    | inr (x, a) ↦ absurd (ground arith)
    | inl (api_port, a) ↦ elim (Result-cases (reference_port H H.keys.staking_port ref)) [
      | inr (x, p) ↦ absurd (ground arith)
      | inl (p2p_port, p) ↦
          let ran =
            extra_nodes-Extras H ref api_port p2p_port 0 (n - length ds) w more (ground arith) in
          (
            record {
              ref = ref;
              api_port = api_port;
              p2p_port = p2p_port;
              more = more;
              is_last = e;
              ref_api_port = a;
              ref_p2p_port = p;
              appended = refl;
              extras = ran.1;
              signing_keys = ran.2;
            },
            ran.0,
          )
    ]
  ]
]

nothing_missing :
    (H : Host) (ds : List NodeConfig) (n : ℕ) (w : H.World) (more : List NodeConfig)
    → ltb (length ds) n ≡ false
    → (missing_nodes H ds n w).0 ≡ ok more
    → more ≡ []
unfolding missing_nodes
nothing_missing H ds n w more e h = ground arith

sized :
    (H : Host) (ds : List NodeConfig) (n : ℕ) (w : H.World) (more : List NodeConfig)
    → (missing_nodes H ds n w).0 ≡ ok more
    → (n ≤ length (ds ++ more))
      × (n ≤ length ds → ds ++ more ≡ ds)
      × (length ds < n → ltb n (length (ds ++ more)) ≡ false)
sized H ds n w more h = elim (Bool-cases (ltb (length ds) n)) [
  | inl e ↦
      let ran = missing_nodes-Extends H ds n w more h (ltb→lt _ _ e) in
      (
        ground (arith, ran.1, length-append ds more),
        λ le. absurd (ground arith),
        λ lt. ground (arith, ran.1, length-append ds more),
      )
  | inr e ↦
      let none_more : more ≡ [] = nothing_missing H ds n w more e h in
      (
        rw (none_more, append_nil ds) (ground arith),
        λ le. rw none_more (append_nil ds),
        λ lt. absurd (ground arith),
      )
]

-- A default configuration with any number of nodes that is made without an error has that many: the
-- first ones of the default configuration if it has enough, and else all of them and additional
-- ones after them. Each of these is the last default node with a certificate and a key made for it,
-- no flags but the two ports of that node, raised by 2 for each node added so far, and the signing
-- key of that node. Nothing else differs from the default but the binary.
pub default_config_n_nodes_lem :
    (H : Host) (default c : NetworkConfig) (binary_path : String) (n : ℕ) (w : H.World)
    → (new_default_config_n_nodes H default binary_path n w).0 ≡ ok c
    → (length c.node_configs ≡ n)
      × (c ≡ record default { binary_path = binary_path; node_configs = c.node_configs })
      × (n ≤ length default.node_configs → c.node_configs ≡ take n default.node_configs)
      × (length default.node_configs < n → Extends H default.node_configs c.node_configs)
unfolding new_default_config_n_nodes new_default_config
default_config_n_nodes_lem H default c binary_path n w h =
    let ds = default.node_configs in
    elim (Result-cases (missing_nodes H ds n w).0) [
      | inr (e, x) ↦ absurd (ground arith)
      | inl (more, x) ↦
          let trimmed : c.node_configs
              ≡ (if ltb n (length (ds ++ more)) then take n (ds ++ more) else ds ++ more) =
            ground arith in
          let (count, few, many) = sized H ds n w more x in
          (
            ground (arith, trimmed, count, length-take n (ds ++ more)),
            ground arith,
            λ le. ground (arith, trimmed, few le, take_all ds),
            λ lt. rw (trimmed, many lt) (missing_nodes-Extends H ds n w more x lt).0,
          )
    ]

-- the port that a node's configuration gives under `key`, as `getPort` reads it
abbrev pub given_in : (H : Host) → String → NodeConfig → Option ℕ
given_in H key c = elim (lookup key (or_empty c.flags)) [ none ↦ none | some v ↦ given_port H v ]

raised-ne :
    (a p i j : ℕ)
    → i < 32767
    → j < 32767
    → (u16 (int_add a (suc i * 2)) ≡ u16 (int_add a (suc j * 2)) → i ≡ j)
      × (u16 (int_add a (suc i * 2)) ≢ u16 a)
      × (a % 2 ≢ p % 2 → u16 (int_add a (suc i * 2)) ≢ u16 (int_add p (suc j * 2)))
raised-ne a p i j hi hj = (λ h. omega arith, λ h. omega arith, λ odd h. omega arith)

given_in-extra_node :
    (H : Host) (ref : NodeConfig) (a p i : ℕ) (made : String × String)
    → str_eq H.keys.http_port H.keys.staking_port ≡ false
    → (given_in H H.keys.http_port (extra_node H ref a p i made)
        ≡ some (u16 (int_add a (suc i * 2))))
      × (given_in H H.keys.staking_port (extra_node H ref a p i made)
          ≡ some (u16 (int_add p (suc i * 2))))
unfolding extra_node lookup given_port
given_in-extra_node H ref a p i made d =
    (ground (arith, eq_refl H.keys.http_port), ground (arith, eq_refl H.keys.staking_port))

-- The additional nodes of a default configuration, up to 32767 of them, have different ports, also
-- after the cut to 16 bits, where the keys of the two ports differ: no two nodes have the same API
-- port, none has that of the reference node, and where the two ports of the reference node are one
-- even and one odd, no node has another node's or its own P2P port as its API port.
pub extra_node-ports-ne :
    (H : Host) (ref : NodeConfig) (a p i j : ℕ) (m1 m2 : String × String)
    → str_eq H.keys.http_port H.keys.staking_port ≡ false
    → i < 32767
    → j < 32767
    → let c = extra_node H ref a p i m1 in
      let d = extra_node H ref a p j m2 in
      (given_in H H.keys.http_port c ≡ given_in H H.keys.http_port d → i ≡ j)
      × (given_in H H.keys.http_port c ≢ some (u16 a))
      × (a % 2 ≢ p % 2 → given_in H H.keys.http_port c ≢ given_in H H.keys.staking_port d)
extra_node-ports-ne H ref a p i j m1 m2 keys hi hj =
    let first = given_in-extra_node H ref a p i m1 keys in
    let second = given_in-extra_node H ref a p j m2 keys in
    let ne = raised-ne a p i j hi hj in
    (
      λ e. ne.0 (ground (arith, first, second)),
      λ e. ne.1 (ground (arith, first)),
      λ parity e. ne.2 parity (ground (arith, first, second)),
    )
