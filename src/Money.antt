-- ===== src/Money.antt =====
-- apps/web/src/server/money.ts: amounts and quantities are integers, in hundredths, and travel as
-- decimal texts. A text is the list of its UTF-16 code units.
pub mod RoundTrip
pub mod Bounds
pub mod Rounding
pub mod Exact
use mathlib.Core.List.{reverse}
use cafe_retail_software.Prelude.{
  ℕ, zero, suc, ◌+◌, ◌-◌, ◌*◌, ◌/◌, ◌%◌, ◌^◌, Bool, true, false, not, ◌&&◌, ◌||◌, Option, none,
  some, List, [], ◌∷◌, ◌++◌, ltb, leb, ◌==◌, if◌then◌else◌, length, every, is_some,
}
use cafe_retail_software.Prelude.Int.{ℤ, pos, negsuc, nat_abs, ltb_ℤ}
use cafe_retail_software.Result.{Error, invalid_decimal, Result, ok, err}

abbrev pub Text : Type 0
Text = List ℕ

-- `Number.MAX_SAFE_INTEGER`, 2 ^ 53 - 1.
abbrev pub max_safe : ℕ
max_safe = 9_007_199_254_740_991

-- `Number.isSafeInteger` of an integer.
abbrev pub is_safe : ℤ → Bool
is_safe n = leb (nat_abs n) max_safe

-- What `trim` takes off.
pub is_space : ℕ → Bool
is_space c =
    (leb 9 c && leb c 13)
    || c == 32
    || c == 160
    || c == 5760
    || (leb 8192 c && leb c 8202)
    || c == 8232
    || c == 8233
    || c == 8239
    || c == 8287
    || c == 12288
    || c == 65279

-- `text.trim().length`: the code units from the first to the last that is no space.
trim_start : Text → Text
unfolding is_space
trim_start [] = []
trim_start (c ∷ t) = let rest = trim_start t in if is_space c then rest else c ∷ t

unfoldable pub trimmed_length : Text → ℕ
unfolding trim_start
trimmed_length t = length (trim_start (reverse (trim_start t)))

abbrev pub is_digit : ℕ → Bool
is_digit c = leb b'0' c && leb c b'9'

-- The longest run of digits, and what follows it: `\d{1,}`.
abbrev pub span_digits : Text → Text × Text
span_digits [] = ([], [])
span_digits (c ∷ t) =
    let (ds, rest) = span_digits t in if is_digit c then (c ∷ ds, rest) else ([], c ∷ t)

-- The value of a run of digits behind the digits read so far.
abbrev pub number_from : ℕ → Text → ℕ
number_from n [] = n
number_from n (c ∷ t) = number_from (n * 10 + (c - b'0')) t

-- The fraction that the pattern takes: nothing, or a point and one or two digits.
pub fraction : Text → Option Text
fraction [] = some []
fraction (p ∷ ds) =
    if (p == b'.') && every is_digit ds && leb 1 (length ds) && leb (length ds) 2
    then some ds
    else none

abbrev pub with_fraction : Text → Option Text → Option (Text × Text)
with_fraction whole none = none
with_fraction whole (some f) = some (whole, f)

abbrev pub nine_digits : Text × Text → Option (Text × Text)
nine_digits (whole, rest) =
    if leb 1 (length whole) && leb (length whole) 9
    then with_fraction whole (fraction rest)
    else none

-- `/^\d{1,9}(\.\d{1,2})?$/`, with its whole part and its fraction.
pub decimal_parts : Text → Option (Text × Text)
decimal_parts t = nine_digits (span_digits t)

-- `fraction.padEnd(2, "0")`
abbrev pub pad_end : Text → Text
pad_end [] = b'0' ∷ b'0' ∷ []
pad_end (c ∷ []) = c ∷ b'0' ∷ []
pad_end t = t

unfoldable pub scaled : Text → Result ℕ
unfolding decimal_parts fraction
scaled t = elim (decimal_parts t) [
  | none ↦ err invalid_decimal
  | some (whole, f) ↦
      let n = number_from 0 whole * 100 + number_from 0 (pad_end f) in
      if leb n max_safe then ok n else err invalid_decimal
]

-- The amount that a text stands for, nothing where it is refused.
abbrev pub value : Text → ℕ
value t = elim (scaled t) [ ok n ↦ n | err e ↦ 0 ]

-- `String(n)`: the digits of a number in front of a text, with fuel above the number.
pub print_from : ℕ → ℕ → Text → Text
print_from zero n acc = acc
print_from (suc fuel) n acc =
    let rest = print_from fuel (n / 10) ((b'0' + n % 10) ∷ acc) in
    if ltb n 10 then (b'0' + n) ∷ acc else rest

unfoldable pub print : ℕ → Text
unfolding print_from
print n = print_from (suc n) n []

-- `String(n).padStart(2, "0")`
abbrev pub pad_start : Text → Text
pad_start [] = b'0' ∷ b'0' ∷ []
pad_start (c ∷ []) = b'0' ∷ c ∷ []
pad_start t = t

abbrev pub sign : ℤ → Text
sign n = if ltb_ℤ n (pos 0) then b'-' ∷ [] else []

unfoldable pub decimal : ℤ → Result Text
unfolding print
decimal n =
    if is_safe n
    then ok (sign n ++ (print (nat_abs n / 100) ++ (b'.' ∷ pad_start (print (nat_abs n % 100)))))
    else err invalid_decimal

-- A price in hundredths times a quantity in hundredths, rounded half up to hundredths.
unfoldable pub multiply : ℕ → ℕ → Result ℕ
multiply price quantity =
    let result = price * quantity in
    if leb result max_safe then ok ((result + 50) / 100) else err invalid_decimal

-- `Math.round(n / d)` of numbers that are not negative: a half goes up.
unfoldable pub round_div : ℕ → ℕ → ℕ
round_div n d = (2 * n + d) / (2 * d)
