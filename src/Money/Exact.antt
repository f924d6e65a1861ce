-- ===== src/Money/Exact.antt =====
-- What `scaled` reads of a printed amount is the amount (money.ts), without a bound: a text that is too long
-- is refused.
use cafe_retail_software.Money.RoundTrip.{
  every-print_from, span_digits-append, number_from-print_from,
}
use cafe_retail_software.Money.Bounds.{value_decimal, amount_limit, small_whole}
use cafe_retail_software.Prelude.Int.{pos}
use cafe_retail_software.Prelude.{
  ℕ, every, ◌≡◌, ◌<◌, sym, true, ◌++◌, ◌/◌, ◌∙◌, ◌∷◌, suc, length, [], ◌≤◌, ◌%◌, arith, refl,
}
use cafe_retail_software.Result.{ok, ok-injective}
use cafe_retail_software.Money.{
  Text, scaled, decimal, print, decimal_parts, is_digit, number_from, pad_start,
}

-- The whole part of a printed text that is taken has at most nine digits.
taken_few :
    (ds f : Text) {k : ℕ}
    → every is_digit ds ≡ true
    → scaled (ds ++ (b'.' ∷ f)) ≡ ok k
    → length ds ≤ 9
unfolding scaled decimal_parts
taken_few ds f digits h = ground (arith, span_digits-append ds f digits)

pub print_digits : (w : ℕ) → (every is_digit (print w) ≡ true) × (number_from 0 (print w) ≡ w)
unfolding print
print_digits w = (
  every-print_from (suc w) w [] (omega arith) refl,
  number_from-print_from (suc w) w [] (omega arith),
)

printed_small :
    (n : ℕ) {t : Text} {k : ℕ} → decimal (pos n) ≡ ok t → scaled t ≡ ok k → n < amount_limit
unfolding decimal
printed_small n {t = t} h e =
    let (digits, same) = print_digits (n / 100) in
    let f = pad_start (print (n % 100)) in
    let shape : print (n / 100) ++ (b'.' ∷ f) ≡ t = ground arith in
    let few = taken_few (print (n / 100)) f digits (rw (← shape) at e) in
    omega (arith, small_whole (print (n / 100)) digits few)

-- What is read of a printed amount is the amount.
pub scaled-decimal_exact :
    (n : ℕ) {t : Text} {k : ℕ} → decimal (pos n) ≡ ok t → scaled t ≡ ok k → n ≡ k
scaled-decimal_exact n {t = t} h e =
    ok-injective (sym (value_decimal n (printed_small n h e) h) ∙ e)
