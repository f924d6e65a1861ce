-- ===== src/Money/Bounds.antt =====
-- How large an amount `scaled` lets through: less than ten to the eleventh hundredths.
use cafe_retail_software.Money.RoundTrip.{scaled-decimal}
use cafe_retail_software.Prelude.Int.{pos}
use native.Mathlib.Nat.{pow-suc, le_trans, pow-le-pow_right}
use cafe_retail_software.Result.{ok}
use cafe_retail_software.Prelude.{
  ℕ, ◌≡◌, ◌^◌, every, true, ◌<◌, length, suc, Option-cases, ◌∷◌, some, arith, ◌≤◌, [], ◌*◌, inl,
  refl, inr, ◌+◌, ◌-◌, sym, ◌∙◌,
}
use cafe_retail_software.Money.{
  fraction, scaled, Text, is_digit, span_digits, nine_digits, decimal_parts, number_from, pad_end,
  decimal, value,
}

abbrev pub amount_limit : ℕ
amount_limit = 10 ^ 11

-- The value of a run of digits is bounded by its length.
number_from_bound :
    (ds : Text) (a : ℕ) → every is_digit ds ≡ true → suc (number_from a ds) ≤ suc a * 10 ^ length ds
number_from_bound [] a h = omega arith
number_from_bound (c ∷ ds) a h =
    let next = a * 10 + (c - b'0') in
    let smaller : suc next ≤ suc a * 10 = ground arith in
    let rest : suc (number_from next ds) ≤ suc next * 10 ^ length ds =
      number_from_bound ds next (ground arith) in
    rw (pow-suc 10 (length ds)) (le_trans rest (grind arith))

every-span_digits : (t : Text) → every is_digit (span_digits t).0 ≡ true
every-span_digits [] = refl
every-span_digits (c ∷ t) = ground (arith, every-span_digits t)

nine_digits_bound :
    (p : Text × Text) {whole f : Text}
    → every is_digit p.0 ≡ true
    → nine_digits p ≡ some (whole, f)
    → (every is_digit whole ≡ true)
      × (length whole ≤ 9)
      × (every is_digit f ≡ true)
      × (length f ≤ 2)
unfolding fraction
nine_digits_bound (w, []) d h = ground arith
nine_digits_bound (w, c ∷ ds) d h = ground arith

small_fraction :
    (f : Text) → every is_digit f ≡ true → length f ≤ 2 → number_from 0 (pad_end f) < 100
small_fraction [] d h = omega arith
small_fraction (c ∷ []) d h = ground arith
small_fraction (c ∷ e ∷ []) d h = ground arith
small_fraction (c ∷ e ∷ x ∷ f) d h = absurd (omega arith)

pub small_whole : (w : Text) → every is_digit w ≡ true → length w ≤ 9 → number_from 0 w < 10 ^ 9
small_whole w d h =
    omega (arith, number_from_bound w 0 d, pow-le-pow_right {n = 10} (omega arith) h)

-- A text that `scaled` accepts stands for an amount below 1000000000.00.
pub scaled_bound : (t : Text) {n : ℕ} → scaled t ≡ ok n → n < amount_limit
unfolding scaled
scaled_bound t h = elim (Option-cases (decimal_parts t)) [
  | inl refused ↦ ground arith
  | inr ((whole, f), parts) ↦
      let (dw, lw, df, lf) =
        nine_digits_bound (span_digits t) {whole = whole} {f = f} (every-span_digits t) parts in
      ground (arith, small_whole whole dw lw, small_fraction f df lf)
]

-- What `decimal` prints of a smaller amount is read again.
pub value_decimal : (n : ℕ) {t : Text} → n < amount_limit → decimal (pos n) ≡ ok t → scaled t ≡ ok n
value_decimal n h e =
    let (t', printed, back) = scaled-decimal n h in
    let same : ok t' ≡ ok _ = sym printed ∙ e in ground arith

pub value_ok : (t : Text) {n : ℕ} → scaled t ≡ ok n → value t ≡ n
value_ok t h = rw (value, h)

pub sum_eq : {a b c d : ℕ} → a ≡ b → c ≡ d → a + c ≡ b + d
sum_eq h k = omega arith

pub suc_eq : {a b : ℕ} → a ≡ b → suc a ≡ suc b
suc_eq h = omega arith
