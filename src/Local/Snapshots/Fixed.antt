-- ===== src/Local/Snapshots/Fixed.antt =====
-- What `fixDeprecatedLuxdFlags` does to a map of flags.
use netrunner.Prelude.{
  String, Bool, true, ◌≡◌, inl, inr, [], ◌∷◌, Option, none, some, arith, str_eq, eq_iff,
  if◌then◌else◌, is_some, ◌&&◌, Option-cases,
}
use netrunner.Prelude.Action.{ok, is_ok, Result-cases}
use netrunner.Prelude.Dict.{
  Dict, lookup, insert, distinct, lookup-insert, lookup-remove, str_eq_sym,
}
use netrunner.Host.{Host, Value, Keys, as_text}
use netrunner.Local.Snapshots.Flags.{
  fix_deprecated_luxd_flags, fix_subnets, fix_build_dir, replace_flag,
  deprecated_build_dir_key as old_build, deprecated_whitelisted_subnets_key as old_subnets,
}

-- the old names and the new ones are different
abbrev pub NamesDistinct : Keys → Type 0
NamesDistinct k = distinct (old_build ∷ old_subnets ∷ k.track_subnets ∷ k.plugin_dir ∷ []) ≡ true

-- the flag for the new name: the one made from the old one, unless that is missing or empty, in
-- which case it is as before
abbrev pub renewed : Option Value → (String → String) → Option Value → Option Value
renewed none f before = before
renewed (some v) f before = elim (as_text v) [
  | none ↦ before
  | some t ↦ if str_eq t "" then before else some (Value.text (f t))
]

lookup-replace_flag :
    (old key text value k : String) (flags : Dict Value)
    → lookup k (replace_flag old key text value flags) ≡ (
        if str_eq old k
        then none
        else if str_eq key k
        then if str_eq text "" then lookup k flags else some (Value.text value)
        else lookup k flags)
unfolding replace_flag
lookup-replace_flag old key text value k flags = ground (
  arith,
  lookup-remove old k (if str_eq text "" then flags else insert key (Value.text value) flags),
  lookup-insert key k (Value.text value) flags,
)

-- one of the two steps of the call
abbrev pub step_result : String → String → (String → String) → Dict Value → String → Option Value
step_result old key f flags k =
    if str_eq old k
    then none
    else if str_eq key k
    then renewed (lookup old flags) f (lookup k flags)
    else lookup k flags

fix_subnets_lem :
    (H : Host) (flags fixed : Dict Value) (k : String)
    → fix_subnets H flags (lookup old_subnets flags) ≡ ok fixed
    → lookup k fixed ≡ step_result old_subnets H.keys.track_subnets (λ t. t) flags k
unfolding fix_subnets
fix_subnets_lem H flags fixed k h = elim (Option-cases (lookup old_subnets flags)) [
  | inl e ↦ ground (arith, eq_iff old_subnets k)
  | inr (v, e) ↦ elim (Option-cases (as_text v)) [
    | inl x ↦ absurd (ground arith)
    | inr (t, x) ↦ ground (arith, lookup-replace_flag old_subnets H.keys.track_subnets t t k flags)
  ]
]

fix_build_dir_lem :
    (H : Host) (flags fixed : Dict Value) (k : String)
    → fix_build_dir H flags (lookup old_build flags) ≡ ok fixed
    → lookup k fixed ≡ step_result old_build H.keys.plugin_dir (λ t. H.join t "plugins") flags k
unfolding fix_build_dir
fix_build_dir_lem H flags fixed k h = elim (Option-cases (lookup old_build flags)) [
  | inl e ↦ ground (arith, eq_iff old_build k)
  | inr (v, e) ↦ elim (Option-cases (as_text v)) [
    | inl x ↦ absurd (ground arith)
    | inr (t, x) ↦
        ground
          (arith, lookup-replace_flag old_build H.keys.plugin_dir t (H.join t "plugins") k flags)
  ]
]

-- the entry of the fixed flags for each name
abbrev pub fixed_entry : (H : Host) → Dict Value → String → Option Value
fixed_entry H flags k =
    if str_eq old_build k
    then none
    else if str_eq old_subnets k
    then none
    else if str_eq H.keys.track_subnets k
    then renewed (lookup old_subnets flags) (λ t. t) (lookup k flags)
    else if str_eq H.keys.plugin_dir k
    then renewed (lookup old_build flags) (λ t. H.join t "plugins") (lookup k flags)
    else lookup k flags

abbrev pub text_if_given : Option Value → Bool
text_if_given none = true
text_if_given (some v) = is_some (as_text v)

fix_deprecated_luxd_flags-is_ok :
    (H : Host) (flags : Dict Value)
    → NamesDistinct H.keys
    → is_ok (fix_deprecated_luxd_flags H flags)
      ≡ (text_if_given (lookup old_subnets flags) && text_if_given (lookup old_build flags))
unfolding fix_deprecated_luxd_flags fix_subnets fix_build_dir
fix_deprecated_luxd_flags-is_ok H flags d =
    elim (Result-cases (fix_subnets H flags (lookup old_subnets flags))) [
      | inr (e, x) ↦ ground arith
      | inl (f1, x) ↦
          let build = fix_subnets_lem H flags f1 old_build x in
          ground (
            arith,
            build,
            str_eq_sym old_subnets old_build,
            str_eq_sym H.keys.track_subnets old_build,
          )
    ]

pub fix_deprecated_luxd_flags-lookup :
    (H : Host) (flags fixed : Dict Value) (k : String)
    → NamesDistinct H.keys
    → fix_deprecated_luxd_flags H flags ≡ ok fixed
    → lookup k fixed ≡ fixed_entry H flags k
unfolding fix_deprecated_luxd_flags
fix_deprecated_luxd_flags-lookup H flags fixed k d h =
    elim (Result-cases (fix_subnets H flags (lookup old_subnets flags))) [
      | inr (e, x) ↦ absurd (ground arith)
      | inl (f1, x) ↦
          let first = fix_subnets_lem H flags f1 k x in
          let build = fix_subnets_lem H flags f1 old_build x in
          let second = fix_build_dir_lem H f1 fixed k (ground arith) in
          ground (
            arith,
            first,
            build,
            second,
            str_eq_sym old_subnets old_build,
            str_eq_sym H.keys.track_subnets old_build,
            eq_iff H.keys.track_subnets k,
            eq_iff H.keys.plugin_dir k,
            eq_iff old_subnets k,
            eq_iff old_build k,
          )
    ]

-- Where the old and the new names differ, the call fails exactly if an old flag is there and is not a text. Otherwise both old flags are
-- gone; the new ones are made from those that were there and not empty, the plugin directory as the
-- directory "plugins" in the old build directory, and win over new ones that were there too; and
-- every other flag is as before.
pub fix_deprecated_luxd_flags_lem :
    (H : Host) (flags : Dict Value)
    → NamesDistinct H.keys
    → (is_ok (fix_deprecated_luxd_flags H flags)
        ≡ (text_if_given (lookup old_subnets flags) && text_if_given (lookup old_build flags)))
      × ((fixed : Dict Value) (k : String)
          → fix_deprecated_luxd_flags H flags ≡ ok fixed
          → lookup k fixed ≡ fixed_entry H flags k)
unfolding fix_deprecated_luxd_flags
fix_deprecated_luxd_flags_lem H flags d = (
  fix_deprecated_luxd_flags-is_ok H flags d,
  λ fixed k h. fix_deprecated_luxd_flags-lookup H flags fixed k d h,
)
