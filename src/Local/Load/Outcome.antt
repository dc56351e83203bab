-- ===== src/Local/Load/Outcome.antt =====
-- What `loadConfig` leaves: every node of the configuration, or none.
use mathlib.Core.Path.{subst}
use netrunner.Prelude.{
  ◌+◌, String, false, ◌≡◌, refl, sym, inl, inr, List, [], ◌∷◌, some, none, arith, eq_iff, eq_refl,
  length, All, Option-cases,
}
use netrunner.Prelude.Action.{ok, err, Error, Result-cases}
use netrunner.Prelude.Dict.{Dict, lookup, insert, lookup-insert, length-insert_new}
use netrunner.Host.{Host}
use netrunner.Config.{NodeConfig}
use netrunner.Local.Types.{LocalNode, LocalNetwork, State}
use netrunner.Local.Add.{add_node}
use netrunner.Local.Add.Cases.{Started, add_node_stages, Started-IsLaunched}
use netrunner.Local.Add.Realised.{Realises, Started-Realises}
use netrunner.Local.Ops.Steps.{stop_empties}
use netrunner.Local.Load.{add_all}

abbrev pub AllRunning : {H : Host} → Dict (LocalNode H) → Type 0
AllRunning nodes = (k : String) (n : LocalNode _) → lookup k nodes ≡ some n → n.paused ≡ false

-- The network has a node, under its own name, that runs as `c` says.
abbrev pub Stands : (H : Host) → LocalNetwork H → NodeConfig → Type 0
Stands H ln c = (n : LocalNode H) × (lookup n.name ln.nodes ≡ some n) × Realises H ln c n

-- From `a` to `b`, nodes were added for the configurations `cs`, and nothing else was changed but
-- the beacons and the counter of default names.
pub record Filled (H : Host) (a b : LocalNetwork H) (cs : List NodeConfig) : Type 0 where
  pub running : AllRunning b.nodes
  pub count : length b.nodes ≡ length a.nodes + length cs
  pub frame : b ≡ record a {
    next_node_suffix = b.next_node_suffix;
    bootstraps = b.bootstraps;
    nodes = b.nodes;
  }
  pub kept : (k : String) (n : LocalNode H) → lookup k a.nodes ≡ some n → lookup k b.nodes ≡ some n
  pub stand : All (Stands H b) cs

-- The node is new: its name was not taken.
Started-fresh :
    (H : Host) (c : NodeConfig) (s : State H) (n : LocalNode H)
    → AllRunning s.network.nodes
    → Started H c s n
    → lookup n.name s.network.nodes ≡ none
Started-fresh H c s n running d = elim (Option-cases (lookup n.name s.network.nodes)) [
  | inl e ↦ e
  | inr (m, e) ↦ absurd (ground (arith, running n.name m e, (Started-IsLaunched H c s n d).fresh))
]

Realises-frame :
    (H : Host) (a b : LocalNetwork H) (c : NodeConfig) (n : LocalNode H)
    → b ≡ record a {
      next_node_suffix = b.next_node_suffix;
      bootstraps = b.bootstraps;
      nodes = b.nodes;
    }
    → Realises H a c n
    → Realises H b c n
Realises-frame H a b c n e r =
    subst (λ ln. Realises H ln c n) (sym e)
      (record {
        live = r.live;
        named = r.named;
        marked = r.marked;
        staked = r.staked;
        identified = r.identified;
        flags = r.flags;
        api_port = r.api_port;
        p2p_port = r.p2p_port;
        db_dir = r.db_dir;
      })

add_node-Filled :
    (H : Host) (c : NodeConfig) (s : State H) (n : LocalNode H)
    → AllRunning s.network.nodes
    → (add_node H c s).0 ≡ ok n
    → Filled H s.network (add_node H c s).1.network (c ∷ [])
add_node-Filled H c s n running h = elim (add_node_stages H c s) [
  | inl (e, failed, same) ↦ absurd (ground arith)
  | inr (m, d) ↦
      let b = (add_node H c s).1.network in
      let fresh = Started-fresh H c s m running d in
      let frame : b ≡ record s.network {
        next_node_suffix = b.next_node_suffix;
        bootstraps = b.bootstraps;
        nodes = b.nodes;
      } =
        ground (arith, d.added) in
      let at : (k : String) → lookup k b.nodes ≡ lookup k (insert m.name m s.network.nodes) =
        λ k. ground (arith, d.added) in
      record {
        running = λ k x there. ground (
          arith,
          at k,
          lookup-insert m.name k m s.network.nodes,
          running k x,
          (Started-IsLaunched H c s m d).is_live,
        );
        count = ground (arith, d.added, length-insert_new m.name m s.network.nodes fresh);
        frame = frame;
        kept = λ k x there.
            ground (arith, at k, lookup-insert m.name k m s.network.nodes, eq_iff m.name k);
        stand = (
          (
            m,
            ground
                (arith, at m.name, lookup-insert m.name m.name m s.network.nodes, eq_refl m.name),
            Realises-frame H s.network b c m frame (Started-Realises H c s m d),
          ),
          tt,
        );
      }
]

Filled-then :
    (H : Host) (a b d : LocalNetwork H) (c : NodeConfig) (cs : List NodeConfig)
    → Filled H a b (c ∷ [])
    → Filled H b d cs
    → Filled H a d (c ∷ cs)
Filled-then H a b d c cs f g =
    let (n, there, r) = f.stand.0 in
    record {
      running = g.running;
      count = ground (arith, f.count, g.count);
      frame = ground (arith, f.frame, g.frame);
      kept = λ k x there. g.kept k x (f.kept k x there);
      stand = ((n, g.kept n.name n there, Realises-frame H b d c n g.frame r), g.stand);
    }

pub add_all-Filled :
    (H : Host) (cs : List NodeConfig) (s : State H)
    → AllRunning s.network.nodes
    → (add_all H cs s).0 ≡ ok tt
    → Filled H s.network (add_all H cs s).1.network cs
unfolding add_all
add_all-Filled H [] s running h = record {
  running = running;
  count = omega arith;
  frame = refl;
  kept = λ k n there. there;
  stand = tt;
}
add_all-Filled H (c ∷ cs) s running h = elim (Result-cases (add_node H c s).0) [
  | inr (e, x) ↦ absurd (ground arith)
  | inl (n, x) ↦
      let first = add_node-Filled H c s n running x in
      let t = (add_node H c s).1 in
      rw (add_all, x)
        (Filled-then H s.network t.network (add_all H cs t).1.network c cs first
          (add_all-Filled H cs t first.running (rw (add_all, x) at h)))
]

pub add_all_fails :
    (H : Host) (cs : List NodeConfig) (s : State H) (e : Error)
    → (add_all H cs s).0 ≡ err e
    → (add_all H cs s).1.network.nodes ≡ []
unfolding add_all
add_all_fails H [] s e h = absurd (cc)
add_all_fails H (c ∷ cs) s e h = elim (Result-cases (add_node H c s).0) [
  | inr (f, x) ↦ rw (add_all, x) (stop_empties H (add_node H c s).1)
  | inl (n, x) ↦ rw (add_all, x) (add_all_fails H cs (add_node H c s).1 e (rw (add_all, x) at h))
]
