-- ===== src/Local/Chains/Track/Tracked.antt =====
-- Which subnets a node tracks after `restartNodes`, and whether it is restarted.
use netrunner.Prelude.{
  String, Bool, true, false, ◌&&◌, ◌||◌, not, ◌≡◌, inl, inr, List, [], ◌∷◌, arith, str_eq, ◌∙◌, ap,
  none, some, is_some, if◌then◌else◌, refl, Bool-cases,
}
use netrunner.Prelude.Action.{Action, ok, err, panic, when}
use netrunner.Prelude.Dict.{Dict, contains, lookup, insert}
use netrunner.Host.{Host, Value}
use netrunner.Config.{NodeConfig, or_empty}
use netrunner.Local.Types.{LocalNode, State}
use netrunner.Local.Ops.{restart_node}
use netrunner.Server.Types.{PermissionlessValidatorSpec, RemoveSubnetValidatorSpec}
use netrunner.Local.Chains.{Api, SubnetSpec}
use netrunner.Local.Chains.Sets.{
  sort, join_texts, contains-sort, add_member, drop_member, contains-add_member,
  contains-drop_member,
}
use netrunner.Local.Chains.Track.{
  restart_one, tracking, tracked_before, no_changes, Plan, Reasons, with_validators, without_subnet,
  with_removals, with_subnet, with_subnets, plan, or_nil,
}

-- the node `name` is to validate the subnet `id`, or any subnet
abbrev pub validates : String → (String → Bool) → List PermissionlessValidatorSpec → Bool
validates name p [] = false
validates name p (v ∷ vs) = (str_eq v.node_name name && p v.subnet_id) || validates name p vs

abbrev pub is_removed : String → (String → Bool) → List RemoveSubnetValidatorSpec → Bool
is_removed name p [] = false
is_removed name p (r ∷ rs) = (contains name r.node_names && p r.subnet_id) || is_removed name p rs

abbrev pub participates : String → (String → Bool) → List (String × SubnetSpec) → Bool
participates name p [] = false
participates name p ((id, spec) ∷ more) =
    (contains name spec.participants && p id) || participates name p more

abbrev pub is_subnet : String → String → Bool
is_subnet id other = str_eq other id

abbrev pub any_subnet : String → Bool
any_subnet other = true

with_validators_lem :
    (name id : String) (vs : List PermissionlessValidatorSpec) (p : Plan)
    → (contains id (with_validators name vs p).tracked
        ≡ (contains id p.tracked || validates name (is_subnet id) vs))
      × ((with_validators name vs p).needs_restart
          ≡ (p.needs_restart || validates name any_subnet vs))
unfolding with_validators
with_validators_lem name id [] p = (ground arith, ground arith)
with_validators_lem name id (v ∷ vs) p = elim (Bool-cases (str_eq v.node_name name)) [
  | inr e ↦
      let rest = with_validators_lem name id vs p in
      (ground (arith, rest, e), ground (arith, rest, e))
  | inl e ↦
      let rest =
        with_validators_lem name id vs
          (record { tracked = add_member v.subnet_id p.tracked; needs_restart = true }) in
      let one = contains-add_member id v.subnet_id p.tracked in
      (ground (arith, rest, one, e), ground (arith, rest, e))
]

without_subnet_lem :
    (name id subnet : String) (ks : List String) (p : Plan)
    → (contains id (without_subnet name subnet ks p).tracked
        ≡ (contains id p.tracked && not (contains name ks && is_subnet id subnet)))
      × ((without_subnet name subnet ks p).needs_restart ≡ (p.needs_restart || contains name ks))
unfolding without_subnet
without_subnet_lem name id subnet [] p = (ground arith, ground arith)
without_subnet_lem name id subnet (k ∷ ks) p = elim (Bool-cases (str_eq k name)) [
  | inr e ↦
      let rest = without_subnet_lem name id subnet ks p in
      (ground (arith, rest, e), ground (arith, rest, e))
  | inl e ↦
      let rest =
        without_subnet_lem name id subnet ks
          (record { tracked = drop_member subnet p.tracked; needs_restart = true }) in
      let one = contains-drop_member id subnet p.tracked in
      (ground (arith, rest, one, e), ground (arith, rest, e))
]

with_removals_lem :
    (name id : String) (rs : List RemoveSubnetValidatorSpec) (p : Plan)
    → (contains id (with_removals name rs p).tracked
        ≡ (contains id p.tracked && not (is_removed name (is_subnet id) rs)))
      × ((with_removals name rs p).needs_restart
          ≡ (p.needs_restart || is_removed name any_subnet rs))
unfolding with_removals
with_removals_lem name id [] p = (ground arith, ground arith)
with_removals_lem name id (r ∷ rs) p =
    let one = without_subnet_lem name id r.subnet_id r.node_names p in
    let rest = with_removals_lem name id rs (without_subnet name r.subnet_id r.node_names p) in
    (ground (arith, rest, one), ground (arith, rest, one))

with_subnet_lem :
    (name id subnet : String) (ks : List String) (p : Plan)
    → (contains id (with_subnet name subnet ks p).tracked
        ≡ (contains id p.tracked || (contains name ks && is_subnet id subnet)))
      × ((with_subnet name subnet ks p).needs_restart ≡ (p.needs_restart || contains name ks))
unfolding with_subnet
with_subnet_lem name id subnet [] p = (ground arith, ground arith)
with_subnet_lem name id subnet (k ∷ ks) p = elim (Bool-cases (str_eq k name)) [
  | inr e ↦
      let rest = with_subnet_lem name id subnet ks p in
      (ground (arith, rest, e), ground (arith, rest, e))
  | inl e ↦
      let rest =
        with_subnet_lem name id subnet ks
          (record { tracked = add_member subnet p.tracked; needs_restart = true }) in
      let one = contains-add_member id subnet p.tracked in
      (ground (arith, rest, one, e), ground (arith, rest, e))
]

with_subnets_lem :
    (name id : String) (ss : List (String × SubnetSpec)) (p : Plan)
    → (contains id (with_subnets name ss p).tracked
        ≡ (contains id p.tracked || participates name (is_subnet id) ss))
      × ((with_subnets name ss p).needs_restart
          ≡ (p.needs_restart || participates name any_subnet ss))
unfolding with_subnets
with_subnets_lem name id [] p = (ground arith, ground arith)
with_subnets_lem name id ((subnet, spec) ∷ ss) p =
    let one = with_subnet_lem name id subnet spec.participants p in
    let rest = with_subnets_lem name id ss (with_subnet name subnet spec.participants p) in
    (ground (arith, rest, one), ground (arith, rest, one))

plan_lem :
    (name id : String) (r : Reasons) (before : List String)
    → (contains id (plan name r before).tracked ≡ (
        ((contains id before || validates name (is_subnet id) (or_nil r.validators))
          && not (is_removed name (is_subnet id) (or_nil r.removals)))
        || participates name (is_subnet id) (or_nil r.subnets)))
      × ((plan name r before).needs_restart ≡ (
          validates name any_subnet (or_nil r.validators)
          || is_removed name any_subnet (or_nil r.removals)
          || participates name any_subnet (or_nil r.subnets)))
unfolding plan
plan_lem name id r before =
    let p0 : Plan = record { tracked = before; needs_restart = false } in
    let p1 = with_validators name (or_nil r.validators) p0 in
    let p2 = with_removals name (or_nil r.removals) p1 in
    let a = with_validators_lem name id (or_nil r.validators) p0 in
    let b = with_removals_lem name id (or_nil r.removals) p1 in
    let c = with_subnets_lem name id (or_nil r.subnets) p2 in
    (ground (arith, a, b, c), ground (arith, a, b, c))

-- a node is to be restarted: a specification names it, or its configuration changed with new subnets
abbrev pub is_affected : String → Reasons → Bool
is_affected name r =
    (validates name any_subnet (or_nil r.validators)
      || is_removed name any_subnet (or_nil r.removals)
      || participates name any_subnet (or_nil r.subnets))
    || (is_some r.subnets && contains name r.config_updates)

-- the state in which the node's flags say that it tracks `ids`
abbrev pub tracking_ids :
    (H : Host) → String → LocalNode H → Dict Value → List String → State H → State H
tracking_ids H name n flags ids s = record s {
  network = record s.network {
    nodes =
        insert name
          (record n {
            config = record n.config {
              flags = some (insert H.keys.track_subnets (Value.text (join_texts ids)) flags);
            };
          })
          s.network.nodes;
  };
}

tracking_lem :
    (H : Host) (A : Api H) (ids : List String) (c : NodeConfig) (flags : Dict Value)
    → c.flags ≡ some flags
    → tracking H A ids c
      ≡ ok (record c {
        flags = some (insert H.keys.track_subnets (Value.text (join_texts (sort ids))) flags);
      })
unfolding tracking
tracking_lem H A ids c flags given =
    ap
      (λ o. elim o [
        | none ↦ err panic
        | some m ↦ ok (record c {
          flags = some (insert H.keys.track_subnets (Value.text (join_texts (sort ids))) m);
        })
      ])
      given

when-if :
    {S : Type 0} (b : Bool) (m : Action S (Unit {0})) (s : S)
    → when b m s ≡ (if b then m s else (ok tt, s))
when-if true m s = refl
when-if false m s = refl

-- In its round over a node that has flags, with a text for the subnets that it tracks, `restartNodes`
-- writes into them that the node tracks those that it tracked before or is to validate, but for those
-- that it is removed from, and those in which it participates. It then restarts the node exactly if
-- the node is not paused and either any of these specifications names it, or there are new subnets
-- and its configuration was updated.
pub restart_one_lem :
    (H : Host) (A : Api H) (r : Reasons) (name : String) (s : State H) (n : LocalNode H)
    (flags : Dict Value) (before : List String)
    → lookup name s.network.nodes ≡ some n
    → n.config.flags ≡ some flags
    → tracked_before (lookup H.keys.track_subnets flags) ≡ ok before
    → (ids : List String) × ((id : String)
        → contains id ids ≡ (
            ((contains id before || validates name (is_subnet id) (or_nil r.validators))
              && not (is_removed name (is_subnet id) (or_nil r.removals)))
            || participates name (is_subnet id) (or_nil r.subnets)))
      × (restart_one H A r name s ≡ (
          if is_affected name r && not n.paused
          then restart_node H name no_changes (tracking_ids H name n flags ids s)
          else (ok tt, tracking_ids H name n flags ids s)))
unfolding restart_one
restart_one_lem H A r name s n flags before there given known =
    let p = plan name r before in
    let written = tracking_ids H name n flags (sort p.tracked) s in
    let read : tracked_before (lookup H.keys.track_subnets (or_empty n.config.flags)) ≡ ok before =
      ap (λ o. tracked_before (lookup H.keys.track_subnets (or_empty o))) given ∙ known in
    (
      sort p.tracked,
      λ id. contains-sort id p.tracked ∙ (plan_lem name id r before).0,
      rw (there, read, tracking_lem H A p.tracked n.config flags given)
          (when-if
              ((p.needs_restart || (is_some r.subnets && contains name r.config_updates))
                && not n.paused)
              (restart_node H name no_changes) written
            ∙ ap
                (λ b.
                  if (b || (is_some r.subnets && contains name r.config_updates)) && not n.paused
                  then restart_node H name no_changes written
                  else (ok tt, written))
                (plan_lem name "" r before).1),
    )
