-- ===== src/Money/RoundTrip.antt =====
-- `scaled` reads back what `decimal` writes.
use cafe_retail_software.Result.{ok, err, invalid_decimal}
use cafe_retail_software.Prelude.Int.{pos, negsuc}
use native.Mathlib.Nat.{pow-suc}
use cafe_retail_software.Prelude.{
  some, ap, ℕ, zero, suc, ◌+◌, ◌/◌, ◌%◌, ◌<◌, ◌≡◌, true, ◌∷◌, arith, every, ◌^◌, Bool, length, ◌++◌,
  ◌&&◌, ◌≤◌, ◌==◌, ◌∙◌, ◌*◌, [], refl, le→leb,
}
use cafe_retail_software.Money.{
  Text, is_digit, number_from, print_from, span_digits, print, fraction, decimal, scaled, pad_start,
  pad_end, max_safe, decimal_parts, nine_digits,
}

pub number_from-print_from :
    (fuel n : ℕ) (acc : Text) → n < fuel → number_from 0 (print_from fuel n acc) ≡ number_from n acc
unfolding print_from
number_from-print_from zero n acc h = elim h [ ]
number_from-print_from (suc fuel) n acc h =
    ground (arith, number_from-print_from fuel (n / 10) ((b'0' + n % 10) ∷ acc))

pub every-print_from :
    (fuel n : ℕ) (acc : Text)
    → n < fuel
    → every is_digit acc ≡ true
    → every is_digit (print_from fuel n acc) ≡ true
unfolding print_from
every-print_from zero n acc h k = elim h [ ]
every-print_from (suc fuel) n acc h k =
    ground (arith, every-print_from fuel (n / 10) ((b'0' + n % 10) ∷ acc))

length-print_from :
    (fuel n k : ℕ) (acc : Text)
    → n < fuel
    → n < 10 ^ suc k
    → (suc (length acc) ≤ length (print_from fuel n acc))
      × (length (print_from fuel n acc) ≤ suc k + length acc)
unfolding print_from
length-print_from zero n k acc h b = elim h [ ]
length-print_from (suc fuel) n zero acc h b = ground arith
length-print_from (suc fuel) n (suc k) acc h b =
    let deeper : n / 10 < 10 ^ suc k = omega (arith, pow-suc 10 (suc k)) in
    ground (arith, length-print_from fuel (n / 10) k ((b'0' + n % 10) ∷ acc))

pub span_digits-append :
    (ds rest : Text)
    → every is_digit ds ≡ true
    → span_digits (ds ++ (b'.' ∷ rest)) ≡ (ds, b'.' ∷ rest)
span_digits-append [] rest h = refl
span_digits-append (c ∷ ds) rest h = ground (arith, span_digits-append ds rest)

-- The two digits of a number below a hundred, checked at every value.
abbrev reads_back : ℕ → Bool
reads_back m =
    let t = pad_start (print m) in
    every is_digit t && (length t == 2) && (number_from 0 (pad_end t) == m)

all_below : ℕ → (ℕ → Bool) → Bool
all_below zero p = true
all_below (suc n) p = p n && all_below n p

all_below_sound : (n : ℕ) (p : ℕ → Bool) (m : ℕ) → all_below n p ≡ true → m < n → p m ≡ true
unfolding all_below
all_below_sound zero p m h lt = absurd (omega arith)
all_below_sound (suc n) p m h lt = ground (arith, all_below_sound n p m)

hundredths_table : all_below 100 reads_back ≡ true
unfolding all_below print
hundredths_table = refl

fraction-pad_start :
    (m : ℕ)
    → m < 100
    → (fraction (b'.' ∷ pad_start (print m)) ≡ some (pad_start (print m)))
      × (number_from 0 (pad_end (pad_start (print m))) ≡ m)
unfolding fraction
fraction-pad_start m h = ground (arith, all_below_sound 100 reads_back m hundredths_table h)

-- A run of one to nine digits, a point and one or two digits are the parts that the pattern takes.
decimal_parts-append :
    (ds f : Text)
    → every is_digit ds ≡ true
    → 1 ≤ length ds
    → length ds ≤ 9
    → fraction (b'.' ∷ f) ≡ some f
    → decimal_parts (ds ++ (b'.' ∷ f)) ≡ some (ds, f)
unfolding decimal_parts
decimal_parts-append ds f digits some_digit few e = rw (span_digits-append ds f digits) (
    rw (e, nine_digits) (ground (arith, le→leb 1 (length ds) some_digit, le→leb (length ds) 9 few)))

scaled-parts :
    (t ds f : Text)
    → decimal_parts t ≡ some (ds, f)
    → number_from 0 ds * 100 + number_from 0 (pad_end f) ≤ max_safe
    → scaled t ≡ ok (number_from 0 ds * 100 + number_from 0 (pad_end f))
unfolding scaled
scaled-parts t ds f e small = ground arith

-- The whole part of an amount, as it is printed.
whole_parts :
    (w : ℕ)
    → w < 10 ^ 9
    → (every is_digit (print w) ≡ true)
      × (1 ≤ length (print w))
      × (length (print w) ≤ 9)
      × (number_from 0 (print w) ≡ w)
unfolding print
whole_parts w h =
    let (least, most) = length-print_from (suc w) w 8 [] (omega arith) h in
    (
      every-print_from (suc w) w [] (omega arith) refl,
      omega arith,
      omega arith,
      number_from-print_from (suc w) w [] (omega arith),
    )

-- Every amount from 0.00 to 999999999.99 is printed, and `scaled` reads the text back as the amount.
pub scaled-decimal :
    (n : ℕ) → n < 10 ^ 11 → (t : Text) × (decimal (pos n) ≡ ok t) × (scaled t ≡ ok n)
unfolding decimal
scaled-decimal n h =
    let (digits, some_digit, few, whole) = whole_parts (n / 100) (omega arith) in
    let (taken, hundredths) = fraction-pad_start (n % 100) (omega arith) in
    let f = pad_start (print (n % 100)) in
    (
      print (n / 100) ++ (b'.' ∷ f),
      ground arith,
      scaled-parts (print (n / 100) ++ (b'.' ∷ f)) (print (n / 100)) f
            (decimal_parts-append (print (n / 100)) f digits some_digit few taken) (omega arith)
          ∙ ap ok (omega arith),
    )

-- What `scaled` accepts is a safe integer, so that `decimal` prints it.
pub scaled_safe : (t : Text) {n : ℕ} → scaled t ≡ ok n → n ≤ max_safe
unfolding scaled
scaled_safe t h = ground arith

-- The text of a negative amount begins with a sign, and `scaled` refuses it.
pub scaled-decimal_negative :
    (n : ℕ) {t : Text} → decimal (negsuc n) ≡ ok t → scaled t ≡ err invalid_decimal
unfolding decimal scaled
scaled-decimal_negative n h = ground arith
