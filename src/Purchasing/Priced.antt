-- ===== src/Purchasing/Priced.antt =====
-- The lines of a new draft (purchasing.ts): all that was ordered remains to come.
use mathlib.Core.Path.{subst}
use cafe_retail_software.Money.Bounds.{value_decimal, scaled_bound}
use cafe_retail_software.Prelude.Int.{pos}
use cafe_retail_software.Result.{ok, validation_error, ok-injective}
use cafe_retail_software.Documents.{Product}
use cafe_retail_software.Purchasing.Receipt.{IsConserved}
use cafe_retail_software.Prelude.{ℕ, ◌≡◌, refl, ltb, arith}
use cafe_retail_software.Money.{scaled, multiply, decimal}
use cafe_retail_software.Documents.Purchases.{PurchaseItem}
use cafe_retail_software.Purchasing.Lines.{priced_line, no_quantity, LineInput, cost_text}
use cafe_retail_software.Result.Pure.{>>=-eq-ok, ran, guard}

no_quantity_lem : scaled no_quantity ≡ ok 0
unfolding scaled
no_quantity_lem = refl

pub priced_line-IsConserved :
    (id : ℕ) (product : Product) (input : LineInput) {line : ℕ × PurchaseItem}
    → priced_line id product input ≡ ok line
    → IsConserved line.1
unfolding priced_line
priced_line-IsConserved id product input h = elim (>>=-eq-ok (scaled input.quantity_ordered) _ h) [
  | ran quantity read h1 ↦ elim (>>=-eq-ok (scaled (cost_text input product)) _ h1) [
    | ran cost read_cost h2 ↦ elim (>>=-eq-ok (guard (ltb 0 quantity) validation_error) _ h2) [
      | ran _ some_amount h3 ↦ elim (>>=-eq-ok (multiply cost quantity) _ h3) [
        | ran line multiplied h4 ↦ elim (>>=-eq-ok (decimal (pos quantity)) _ h4) [
          | ran quantity_text printed h5 ↦ elim (>>=-eq-ok (decimal (pos cost)) _ h5) [
            | ran cost_printed printed_cost h6 ↦ elim (>>=-eq-ok (decimal (pos line)) _ h6) [
              | ran line_text printed_line h7 ↦
                  let back =
                    value_decimal quantity (scaled_bound input.quantity_ordered read) printed in
                  subst (λ p. IsConserved p.1) (ok-injective h7)
                    (record {
                      amount = quantity;
                      arrived = 0;
                      left = quantity;
                      reads_ordered = back;
                      reads_received = no_quantity_lem;
                      reads_remaining = back;
                      sums_up = omega arith;
                    })
            ]
          ]
        ]
      ]
    ]
  ]
]
