-- ===== src/Local/Chains/Validators/Times.antt =====
-- The times for which a permissionless validator validates.
use netrunner.Prelude.{
  ℕ, ◌+◌, ◌<◌, ◌≡◌, ◌≢◌, Option, none, some, arith, ◌==◌, ==_iff, inl, inr, Bool-cases,
}
use netrunner.Server.Types.{PermissionlessValidatorSpec}
use netrunner.Local.Chains.Validators.{start_of, end_of, seconds_of, unix, u64, zero_time}

start-plus : (t s : ℕ) → t + s < 18446744073709551616 → u64 (u64 t + s) ≡ u64 t + s
start-plus t s small = omega arith

zero-plus : (s : ℕ) → s < 60000000000 → 9223372036854775808 < u64 (zero_time + s)
zero-plus s small = omega arith

-- A permissionless validator with a start time and a duration, where no number overflows, validates
-- from that time for that duration. With a duration of less than 60000000000 seconds and no start
-- time, the end is counted from the year 1 and not from the start: as 64 bits it is above 2^63. With
-- no duration, the end is that of the primary validator.
pub end_of_lem :
    (v : PermissionlessValidatorSpec) (now : ℕ) (primary_end : Option ℕ)
    → ((t : ℕ)
        → v.start_time ≡ some t
        → v.stake_duration ≢ 0
        → t + seconds_of v.stake_duration < 18446744073709551616
        → end_of v primary_end ≡ start_of v now + seconds_of v.stake_duration)
      × (v.start_time ≡ none
          → v.stake_duration ≢ 0
          → seconds_of v.stake_duration < 60000000000
          → 9223372036854775808 < end_of v primary_end)
      × (v.stake_duration ≡ 0 → end_of v primary_end ≡ unix primary_end)
unfolding start_of end_of
end_of_lem v now primary_end = (
  λ t given d small. elim (Bool-cases (v.stake_duration == 0)) [
    | inl e ↦ absurd (d ((==_iff v.stake_duration 0).0 e))
    | inr e ↦ rw (e, given) (start-plus t (seconds_of v.stake_duration) small)
  ],
  λ given d small. elim (Bool-cases (v.stake_duration == 0)) [
    | inl e ↦ absurd (d ((==_iff v.stake_duration 0).0 e))
    | inr e ↦ rw (e, given) (zero-plus (seconds_of v.stake_duration) small)
  ],
  λ zero_duration. ground arith,
)
