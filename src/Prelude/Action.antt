-- ===== src/Prelude/Action.antt =====
-- Methods that change a state and may fail. What was written before a failure stays written.
use mathlib.Core.Path.{◌≡◌, refl}
use mathlib.Core.Bool.{Bool, true, false}
use mathlib.Core.Logic.{◌⊎◌, inl, inr}
use mathlib.Core.List.{List, [], ◌∷◌}
use mathlib.Core.Option.{Option, none, some}
use Prim.Native.String.{String}
use Prim.Native.Nat.{ℕ}

-- the errors of the program, by the place where they arise
pub data Error : Type 0 where
  -- network/network.go
  network_stopped : Error
  node_not_in_network : Error
  node_not_found : String → Error
  -- configuration files
  no_genesis genesis_unreadable genesis_without_network_id : Error
  no_staking_key no_staking_cert config_file_unreadable network_id_mismatch no_beacons : Error
  wrong_type : String → Error
  invalid_node : String → Error → Error
  -- local/network.go
  no_reference_port : Error
  repeated_name : String → Error
  exited : String → ℕ → Error
  already_paused not_paused : Error
  invalid_version_output : Error
  adding_node : String → Error → Error
  -- local/snapshot.go
  snapshot_not_found snapshot_exists invalid_snapshot_name snapshot_unreadable : Error
  db_path_missing : String → Error
  stopped_unexpectedly not_healthy : String → Error
  -- local/blockchain.go
  one_kind_of_spec vms_failed transaction_mismatch : Error
  not_in_network not_validator validators_missing no_elastic_subnet : String → Error
  -- local/helpers.go
  port_in_use : ℕ → Error
  -- utils/utils.go
  invalid_exec_path exec_not_exists plugin_not_exists vm_name_too_long : Error
  -- server/server.go
  already_bootstrapped not_bootstrapped not_enough_nodes invalid_vm_name : Error
  no_blockchain_spec no_subnet_id no_elastic_subnet_spec no_validator_spec : Error
  subnet_id_given start_time_too_soon : Error
  subnet_does_not_exist : String → Error
  -- an error of code that the model takes as a parameter
  external : String → Error
  -- a Go runtime panic: a write to a nil map, a call of a nil pointer
  panic : Error

pub data Result {ℓ} (A : Type ℓ) : Type ℓ where
  ok : A → Result A
  err : Error → Result A

abbrev pub is_ok {ℓ} : {A : Type ℓ} → Result A → Bool
is_ok (ok a) = true
is_ok (err e) = false

abbrev pub Action : Type 0 → Type 0 → Type 0
Action S A = S → Result A × S

module _ {S A : Type 0} where
  abbrev pub pure : A → Action S A
  pure a s = (ok a, s)

  abbrev pub raise : Error → Action S A
  raise e s = (err e, s)

  abbrev pub lift : Result A → Action S A
  lift r s = (r, s)

  abbrev pub or_raise : Option A → Error → Action S A
  or_raise none e s = (err e, s)
  or_raise (some a) e s = (ok a, s)

  abbrev pub gets : (S → A) → Action S A
  gets f s = (ok (f s), s)

abbrev pub modify : {S : Type 0} → (S → S) → Action S (Unit {0})
modify f s = (ok tt, f s)

-- if b { return err }
abbrev pub refuse_if : {S : Type 0} → Bool → Error → Action S (Unit {0})
refuse_if true e s = (err e, s)
refuse_if false e s = (ok tt, s)

-- if b { m }
abbrev pub when : {S : Type 0} → Bool → Action S (Unit {0}) → Action S (Unit {0})
when true m s = m s
when false m s = (ok tt, s)

module _ {S A B : Type 0} where
  abbrev pub continue : Result A → (A → Action S B) → Action S B
  continue (ok a) f s = f a s
  continue (err e) f s = (err e, s)

  infixl 10 ◌>>=◌ ◌>>◌
  abbrev pub ◌>>=◌ : Action S A → (A → Action S B) → Action S B
  ◌>>=◌ m f s = continue (m s).0 f (m s).1

  abbrev pub ◌>>◌ : Action S A → Action S B → Action S B
  m >> n = m >>= λ _. n

module _ {S A : Type 0} where
  -- for _, x := range xs { if err := f(x); err != nil { return err } }
  unfoldable pub for_each : (A → Action S (Unit {0})) → List A → Action S (Unit {0})
  for_each f [] s = (ok tt, s)
  for_each f (x ∷ xs) s = continue (f x s).0 (λ _. for_each f xs) (f x s).1

-- `f` on each, in order, with all results
unfoldable pub for_all : {S A B : Type 0} → (A → Action S B) → List A → Action S (List B)
for_all f [] s = (ok [], s)
for_all f (x ∷ xs) s =
    let rest = for_all f xs (f x s).1 in
    continue (f x s).0 (λ y. λ t. continue rest.0 (λ ys u. (ok (y ∷ ys), u)) rest.1) (f x s).1

unfoldable pub collect : {A B : Type 0} → (A → Result B) → List A → Result (List B)
collect f [] = ok []
collect f (x ∷ xs) =
    let rest = collect f xs in
    elim (f x) [ err e ↦ err e | ok y ↦ elim rest [ err e ↦ err e | ok ys ↦ ok (y ∷ ys) ] ]

pub Result-cases {ℓ} :
    {A : Type ℓ} (r : Result A) → ((a : A) × (r ≡ ok a)) ⊎ ((e : Error) × (r ≡ err e))
Result-cases (ok a) = inl (a, refl)
Result-cases (err e) = inr (e, refl)

-- Pure checks that fail: `a` after `m` has passed.
infixr 11 ◌then_check◌
abbrev pub ◌then_check◌ {ℓ} : {A : Type ℓ} → Result (Unit {0}) → Result A → Result A
ok _ then_check r = r
err e then_check r = err e

abbrev pub map_error {ℓ} : {A : Type ℓ} → (Error → Error) → Result A → Result A
map_error f (ok a) = ok a
map_error f (err e) = err (f e)

abbrev pub result_of {ℓ} : {A : Type ℓ} → Option A → Error → Result A
result_of none e = err e
result_of (some a) e = ok a

-- A pure projection of a call's outcome.
abbrev pub outcome : {S A : Type 0} → Action S A → S → Result A
outcome m s = (m s).0

abbrev pub after : {S A : Type 0} → Action S A → S → S
after m s = (m s).1
