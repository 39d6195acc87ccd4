-- ===== src/Prelude/Decimal.antt =====
-- Decimal numerals: `u64` and `i64` under `to_string` and `parse`.
use Prim.Native.Nat.{ℕ, zero, suc, ◌+◌, ◌-◌, ◌*◌, ◌/◌, ◌%◌, ◌^◌, ◌<◌}
use mathlib.Core.Path.{◌≡◌, refl, ◌∙◌}
use mathlib.Core.Bool.{Bool, true, ◌||◌}
use mathlib.Core.List.{[], ◌∷◌}
use mathlib.Core.Option.{Option, none, some}
use native.Mathlib.Omega.{arith}
use maysemantic.Prelude.Tests.{leb, ltb, nat_eq, if◌then◌else◌}
use maysemantic.Prelude.Lists.{all}
use maysemantic.Prelude.Strings.{Text, is_ascii_digit}

-- The digits of `n` before `acc`, on fuel: one round for each digit.
show_digits : ℕ → ℕ → Text → Text
show_digits zero n acc = acc
show_digits (suc fuel) n acc =
    let d = 48 + n % 10 in
    let rest = show_digits fuel (n / 10) (d ∷ acc) in if ltb n 10 then d ∷ acc else rest

-- `n.to_string()`
unfoldable pub show_nat : ℕ → Text
unfolding show_digits
show_nat n = show_digits (suc n) n []

-- The value of a run of digits, read after `acc`.
unfoldable pub read_digits : ℕ → Text → Option ℕ
read_digits acc [] = some acc
read_digits acc (c ∷ s) =
    let rest = read_digits (acc * 10 + (c - 48)) s in if is_ascii_digit c then rest else none

-- An integer is its sign and its magnitude: `negative m` is -m, and 0 is `positive 0` alone.
pub data Integer : Type 0 where
  positive : ℕ → Integer
  negative : ℕ → Integer

negate : ℕ → Integer
negate zero = positive 0
negate n = negative n

in_range : ℕ → Option ℕ → Option ℕ
in_range limit none = none
in_range limit (some n) = if leb n limit then some n else none

read_unsigned : ℕ → Text → Option ℕ
unfolding in_range
read_unsigned limit [] = none
read_unsigned limit (c ∷ s) = in_range limit (read_digits 0 (c ∷ s))

as_positive : Option ℕ → Option Integer
as_positive none = none
as_positive (some n) = some (positive n)

as_negative : Option ℕ → Option Integer
unfolding negate
as_negative none = none
as_negative (some n) = some (negate n)

-- `s.parse::<i64>()`: an optional sign, digits, and the range of an `i64`.
unfoldable pub parse_i64 : Text → Option Integer
unfolding read_unsigned as_positive as_negative
parse_i64 [] = none
parse_i64 (c ∷ s) =
    if nat_eq c b'-'
    then as_negative (read_unsigned (2 ^ 63) s)
    else if nat_eq c b'+'
    then as_positive (read_unsigned (2 ^ 63 - 1) s)
    else as_positive (read_unsigned (2 ^ 63 - 1) (c ∷ s))

-- `s.parse()` of an unsigned type whose largest value is `limit`
unfoldable pub parse_unsigned : ℕ → Text → Option ℕ
unfolding read_unsigned
parse_unsigned limit [] = none
parse_unsigned limit (c ∷ s) =
    if nat_eq c b'+' then read_unsigned limit s else read_unsigned limit (c ∷ s)

unfoldable pub show_i64 : Integer → Text
show_i64 (positive n) = show_nat n
show_i64 (negative n) = b'-' ∷ show_nat n

-- The characters of a numeric literal.
unfoldable pub is_num_char : ℕ → Bool
unfolding is_ascii_digit
is_num_char c = is_ascii_digit c || nat_eq c b'-' || nat_eq c b'.'

show_digits_num :
    (fuel n : ℕ) (acc : Text)
    → all is_num_char acc ≡ true
    → all is_num_char (show_digits fuel n acc) ≡ true
unfolding show_digits all is_num_char
show_digits_num zero n acc h = h
show_digits_num (suc fuel) n acc h =
    ground (arith, show_digits_num fuel (n / 10) ((48 + n % 10) ∷ acc))

pub all-show_nat : (n : ℕ) → all is_num_char (show_nat n) ≡ true
unfolding show_nat all
all-show_nat n = show_digits_num (suc n) n [] refl

pub all-show_i64 : (z : Integer) → all is_num_char (show_i64 z) ≡ true
unfolding show_i64 all is_num_char
all-show_i64 (positive n) = all-show_nat n
all-show_i64 (negative n) = all-show_nat n

read_digits-show_digits :
    (fuel n : ℕ) (acc : Text)
    → n < fuel
    → read_digits 0 (show_digits fuel n acc) ≡ read_digits n acc
unfolding show_digits read_digits is_ascii_digit
read_digits-show_digits zero n acc h = absurd (omega arith)
read_digits-show_digits (suc fuel) n acc h =
    ground (arith, read_digits-show_digits fuel (n / 10) ((48 + n % 10) ∷ acc))

-- A number that is printed reads back.
pub read_digits-show_nat : (n : ℕ) → read_digits 0 (show_nat n) ≡ some n
unfolding show_nat
read_digits-show_nat n =
    read_digits-show_digits (suc n) n [] (omega arith) ∙ (unfold read_digits in refl)
