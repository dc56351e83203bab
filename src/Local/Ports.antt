-- ===== src/Local/Ports.antt =====
-- local/helpers.go: the choice of a node's ports.
pub mod Bounds
use netrunner.Prelude.{
  ℕ, zero, suc, ◌+◌, ◌-◌, ◌%◌, String, Bool, true, false, Option, none, some, if◌then◌else◌,
}
use netrunner.Prelude.Action.{
  Result, ok, err, Action, pure, or_raise, wrong_type, port_in_use, external, ◌>>=◌,
}
use netrunner.Prelude.Dict.{Dict, lookup}
use netrunner.Host.{Host, Value, as_float}

-- math.MaxUint16, and the wrap of a conversion to uint16
abbrev pub max_port : ℕ
max_port = 65535

abbrev pub min_port : ℕ
min_port = 10000

abbrev pub u16 : ℕ → ℕ
u16 n = n % 65536

module _ (H : Host) where
  open H use {World, float_to_u16, is_free_port, port_tries, rand_intn}

  unfoldable pub get_free_port_within : ℕ → Action World ℕ
  get_free_port_within zero w = (err (external "context deadline exceeded"), w)
  get_free_port_within (suc tries) w =
      let port = u16 ((rand_intn (max_port - min_port + 1) w).0 + min_port) in
      let tested = is_free_port port (rand_intn (max_port - min_port + 1) w).1 in
      elim tested.0 [ true ↦ (ok port, tested.1) | false ↦ get_free_port_within tries tested.1 ]

  unfoldable pub get_free_port : Action World ℕ
  get_free_port = get_free_port_within port_tries

  -- the type switch of `getPort`: an int, truncated, or a float64
  unfoldable pub given_port : Value → Option ℕ
  given_port (Value.int n) = some (u16 n)
  given_port (Value.float bits) = some (float_to_u16 bits)
  given_port _ = none

  unfoldable pub port_in_file : Value → Option ℕ
  port_in_file (Value.float bits) = some (float_to_u16 bits)
  port_in_file _ = none

  unfoldable pub file_port : String → Option Value → Action World ℕ
  unfolding get_free_port port_in_file
  file_port key none = get_free_port
  file_port key (some v) = or_raise (port_in_file v) (wrong_type key)

  unfoldable pub configured_port : String → Option Value → Option Value → Action World ℕ
  unfolding file_port given_port
  configured_port key none in_file = file_port key in_file
  configured_port key (some v) in_file = or_raise (given_port v) (wrong_type key)

  -- if reassignIfUsed && isFreePort(port) != nil { port, err = getFreePort() }
  unfoldable pub reassign : Bool → ℕ → Action World ℕ
  unfolding get_free_port
  reassign false port w = (ok port, w)
  reassign true port w =
      let tested = is_free_port port w in
      if tested.0 then (ok port, tested.1) else get_free_port tested.1

  unfoldable pub last_check : ℕ → Action World ℕ
  last_check port w =
      let tested = is_free_port port w in
      (if tested.0 then ok port else err (port_in_use port), tested.1)

  unfoldable pub get_port : Dict Value → Dict Value → String → Bool → Action World ℕ
  unfolding configured_port reassign last_check
  get_port flags config_file key reassign_if_used = do
    port ← configured_port key (lookup key flags) (lookup key config_file)
    port' ← reassign reassign_if_used port
    last_check port'
