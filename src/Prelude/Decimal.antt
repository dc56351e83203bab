-- ===== src/Prelude/Decimal.antt =====
-- The decimal text of a number, as `%d` prints it.
use Prim.Native.Nat.{ℕ, zero, suc, ◌+◌, ◌-◌, ◌*◌, ◌/◌, ◌%◌, ◌<◌}
use Prim.Native.Char.{Char, code}
use Prim.Native.String.{String}
use mathlib.Core.Path.{◌≡◌, refl, ap, sym, ◌∙◌}
use mathlib.Core.Logic.{inl, inr}
use native.Mathlib.Omega.{arith}
use netrunner.Prelude.Tests.{ltb, ◌==◌, if◌then◌else◌, Bool-cases}

-- the character of a digit; 9 for any larger number
unfoldable pub digit : ℕ → Char
digit n =
    if n == 0
    then "0"
    else if n == 1
    then "1"
    else if n == 2
    then "2"
    else if n == 3
    then "3"
    else if n == 4
    then "4"
    else if n == 5
    then "5"
    else if n == 6
    then "6"
    else if n == 7
    then "7"
    else if n == 8
    then "8"
    else "9"

unfoldable pub decimal_from : ℕ → ℕ → String → String
unfolding digit
decimal_from zero n s = s
decimal_from (suc f) n s =
    let rest = decimal_from f (n / 10) (String.◌∷◌ (digit (n % 10)) s) in
    if ltb n 10 then String.◌∷◌ (digit n) s else rest

unfoldable pub decimal : ℕ → String
unfolding decimal_from
decimal n = decimal_from (suc n) n ""

-- the number that a text of digits stands for, read after `acc`
value_from : ℕ → String → ℕ
value_from acc String.[] = acc
value_from acc (String.◌∷◌ c s) = value_from (acc * 10 + (code c - 48)) s

digit_value : (n : ℕ) → n < 10 → code (digit n) - 48 ≡ n
unfolding digit
digit_value zero h = refl
digit_value (suc zero) h = refl
digit_value (suc (suc zero)) h = refl
digit_value (suc (suc (suc zero))) h = refl
digit_value (suc (suc (suc (suc zero)))) h = refl
digit_value (suc (suc (suc (suc (suc zero))))) h = refl
digit_value (suc (suc (suc (suc (suc (suc zero)))))) h = refl
digit_value (suc (suc (suc (suc (suc (suc (suc zero))))))) h = refl
digit_value (suc (suc (suc (suc (suc (suc (suc (suc zero)))))))) h = refl
digit_value (suc (suc (suc (suc (suc (suc (suc (suc (suc zero))))))))) h = refl
digit_value (suc (suc (suc (suc (suc (suc (suc (suc (suc (suc k)))))))))) h = absurd (omega arith)

value_from-cons :
    (a d n : ℕ) (s : String)
    → d < 10
    → a * 10 + d ≡ n
    → value_from a (String.◌∷◌ (digit d) s) ≡ value_from n s
unfolding value_from
value_from-cons a d n s h e = ap (λ x. value_from x s) (omega (arith, digit_value d h))

value_from-decimal_from :
    (f n : ℕ) (s : String) → n < f → value_from 0 (decimal_from f n s) ≡ value_from n s
unfolding decimal_from
value_from-decimal_from zero n s h = absurd (omega arith)
value_from-decimal_from (suc f) n s h = elim (Bool-cases (ltb n 10)) [
  | inl small ↦ rw small (value_from-cons 0 n n s (ground arith) (omega arith))
  | inr large ↦ rw large (
      value_from-decimal_from f (n / 10) (String.◌∷◌ (digit (n % 10)) s) (ground arith)
      ∙ value_from-cons (n / 10) (n % 10) n s (omega arith) (omega arith))
]

value-decimal : (n : ℕ) → value_from 0 (decimal n) ≡ n
unfolding decimal value_from
value-decimal n = value_from-decimal_from (suc n) n "" (omega arith)

-- Different numbers have different texts.
pub decimal_inj : (m n : ℕ) → decimal m ≡ decimal n → m ≡ n
decimal_inj m n e = sym (value-decimal m) ∙ ap (value_from 0) e ∙ value-decimal n

decimal_of_2024 : decimal 2024 ≡ "2024"
unfolding decimal
decimal_of_2024 = refl
