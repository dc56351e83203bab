-- ===== src/Local/Ports/Bounds.antt =====
-- What a port that `getPort` returns satisfies.
use netrunner.Prelude.{
  ℕ, zero, suc, ◌+◌, ◌≤◌, ◌<◌, String, Bool, true, false, Option, none, some, ◌≡◌, inl, inr, ◌-◌,
  arith, if◌then◌else◌,
}
use netrunner.Prelude.Action.{ok, err, port_in_use, Result-cases}
use netrunner.Prelude.Dict.{Dict, lookup}
use netrunner.Host.{Host, Value}
use netrunner.Local.Ports.{
  get_free_port_within, get_free_port, configured_port, reassign, last_check, get_port, u16,
  min_port, max_port, given_port, file_port, port_in_file,
}

-- What the code relies on: rand.Intn(n) is below n, a conversion to uint16 is below 2^16.
pub record BoundsPorts (H : Host) : Type 0 where
  pub intn_lt : (n : ℕ) (w : H.World) → 0 < n → (H.rand_intn n w).0 < n
  pub u16_lt : (bits : ℕ) → H.float_to_u16 bits < 65536

module _ (H : Host) (b : BoundsPorts H) where
  get_free_port_within_bounds :
      (tries : ℕ) (w : H.World) (p : ℕ)
      → (get_free_port_within H tries w).0 ≡ ok p
      → (min_port ≤ p) × (p ≤ max_port)
  unfolding get_free_port_within
  get_free_port_within_bounds zero w p h = cc
  get_free_port_within_bounds (suc tries) w p h = ground (
    arith,
    b.intn_lt (max_port - min_port + 1) w,
    get_free_port_within_bounds tries
        (H.is_free_port (u16 ((H.rand_intn (max_port - min_port + 1) w).0 + min_port))
          (H.rand_intn (max_port - min_port + 1) w).1).1
        p,
  )

  -- A random port lies between 10000 and 65535.
  pub get_free_port_bounds :
      (w : H.World) (p : ℕ) → (get_free_port H w).0 ≡ ok p → (min_port ≤ p) × (p ≤ max_port)
  unfolding get_free_port
  get_free_port_bounds w p h = get_free_port_within_bounds H.port_tries w p h

  configured_port-lt :
      (key : String) (in_flags in_file : Option Value) (w : H.World) (p : ℕ)
      → (configured_port H key in_flags in_file w).0 ≡ ok p
      → p < 65536
  unfolding configured_port file_port given_port port_in_file
  configured_port-lt key none none w p h = omega (arith, get_free_port_bounds w p h)
  configured_port-lt key none (some (Value.float bits)) w p h = ground (arith, b.u16_lt bits)
  configured_port-lt key none (some _) w p h = cc
  configured_port-lt key (some (Value.int n)) in_file w p h = ground arith
  configured_port-lt key (some (Value.float bits)) in_file w p h = ground (arith, b.u16_lt bits)
  configured_port-lt key (some _) in_file w p h = cc

  reassign-lt :
      (r : Bool) (port : ℕ) (w : H.World) (p : ℕ)
      → port < 65536
      → (reassign H r port w).0 ≡ ok p
      → p < 65536
  unfolding reassign
  reassign-lt false port w p lt h = ground arith
  reassign-lt true port w p lt h = ground (arith, get_free_port_bounds (H.is_free_port port w).1 p)

last_check_inv :
    (H : Host) (port : ℕ) (w : H.World) (p : ℕ)
    → (last_check H port w).0 ≡ ok p
    → (p ≡ port) × ((H.is_free_port p w).0 ≡ true)
unfolding last_check
last_check_inv H port w p h = ground arith

-- The three stages of a call that returned a port.
get_port_inv :
    (H : Host) (flags config_file : Dict Value) (key : String) (r : Bool) (w : H.World) (p : ℕ)
    → (get_port H flags config_file key r w).0 ≡ ok p
    → let first = configured_port H key (lookup key flags) (lookup key config_file) w in
      (q : ℕ) × (first.0 ≡ ok q)
      × ((reassign H r q first.1).0 ≡ ok p)
      × ((H.is_free_port p (reassign H r q first.1).1).0 ≡ true)
      × ((get_port H flags config_file key r w).1 ≡ (H.is_free_port p (reassign H r q first.1).1).1)
unfolding get_port last_check
get_port_inv H flags config_file key r w p h =
    elim (Result-cases (configured_port H key (lookup key flags) (lookup key config_file) w).0) [
      | inl (q, e) ↦ (q, e, ground arith, ground arith, ground arith)
      | inr (x, e) ↦ absurd (ground arith)
    ]

-- Where random ports are in range and converted ones fit 16 bits, a port that `getPort` returns
-- fits 16 bits, and the last thing that `getPort` did was to find it free: the world that it
-- leaves is the one after that test.
pub get_port_sound :
    (H : Host)
    → BoundsPorts H
    → (flags config_file : Dict Value) (key : String) (r : Bool) (w : H.World) (p : ℕ)
    → (get_port H flags config_file key r w).0 ≡ ok p
    → (p < 65536)
      × ((w' : H.World) × (H.is_free_port p w' ≡ (true, (get_port H flags config_file key r w).1)))
get_port_sound H b flags config_file key r w p h =
    let (q, first, second, free, last) = get_port_inv H flags config_file key r w p h in
    (
      reassign-lt H b r q _ p (configured_port-lt H b key _ _ w q first) second,
      (
        (reassign H r q (configured_port H key (lookup key flags) (lookup key config_file) w).1).1,
        ground arith,
      ),
    )

-- With no reassignment, a port given in the flags decides whatever the config file says: it is
-- returned if it is free, and refused as in use if it is not.
pub get_port-given :
    (H : Host) (flags config_file : Dict Value) (key : String) (w : H.World) (v : Value) (q : ℕ)
    → lookup key flags ≡ some v
    → given_port H v ≡ some q
    → (get_port H flags config_file key false w).0
      ≡ (if (H.is_free_port q w).0 then ok q else err (port_in_use q))
unfolding get_port configured_port reassign last_check
get_port-given H flags config_file key w v q there given = ground arith
