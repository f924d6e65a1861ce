-- ===== src/Billing/Balance.antt =====
-- What a payment makes of an invoice's balance (financial.ts).
use mathlib.Core.Path.{subst}
use cafe_retail_software.Money.Bounds.{amount_limit, scaled_bound, value_decimal}
use cafe_retail_software.Prelude.Int.{pos, ◌-ℤ◌, sub_pos}
use cafe_retail_software.Result.{ok, validation_error, ok-injective}
use cafe_retail_software.Documents.Invoices.{Invoice, paid, partial_paid}
use cafe_retail_software.Money.{Text, scaled, decimal}
use cafe_retail_software.Prelude.{ℕ, ◌≡◌, ◌≤◌, ◌-◌, ltb, ◌&&◌, ◌+◌, ◌<◌, leb, ◌≢◌, arith}
use cafe_retail_software.Billing.{payable, settled}
use cafe_retail_software.Result.Pure.{>>=-eq-ok, ran, guard}

-- What is due and what is paid of an invoice, after a payment of an amount.
pub record IsSettled (amount : ℕ) (invoice next : Invoice) : Type 0 where
  pub due : ℕ
  pub already : ℕ
  pub reads_due : scaled invoice.balance_due ≡ ok due
  pub reads_paid : scaled invoice.paid_amount ≡ ok already
  pub some_amount : 1 ≤ amount
  pub not_above : amount ≤ due
  pub new_due : scaled next.balance_due ≡ ok (due - amount)
  pub new_paid : decimal (pos (already + amount)) ≡ ok next.paid_amount
  pub all_paid : due ≡ amount → next.status ≡ paid
  pub some_left : due ≢ amount → next.status ≡ partial_paid

pub payable-eq-ok :
    (text : Text) (invoice : Invoice) {amount due : ℕ}
    → payable text invoice ≡ ok (amount, due)
    → (scaled text ≡ ok amount)
      × (scaled invoice.balance_due ≡ ok due)
      × (1 ≤ amount)
      × (amount ≤ due)
unfolding payable
payable-eq-ok text invoice h = elim (>>=-eq-ok (scaled text) _ h) [
  | ran amount read h1 ↦ elim (>>=-eq-ok (scaled invoice.balance_due) _ h1) [
    | ran due read_due h2 ↦
        elim (>>=-eq-ok (guard (ltb 0 amount && leb amount due) validation_error) _ h2) [
          | ran _ good h3 ↦ ground arith
        ]
  ]
]

pub settled-IsSettled :
    (text : Text) (invoice : Invoice) (amount due : ℕ) {next : Invoice}
    → payable text invoice ≡ ok (amount, due)
    → settled amount due invoice ≡ ok next
    → IsSettled amount invoice next
unfolding settled
settled-IsSettled text invoice amount due h k =
    let (read, read_due, positive, enough) = payable-eq-ok text invoice h in
    elim (>>=-eq-ok (decimal (pos due -ℤ pos amount)) _ k) [
      | ran balance printed k1 ↦ elim (>>=-eq-ok (scaled invoice.paid_amount) _ k1) [
        | ran before read_paid k2 ↦ elim (>>=-eq-ok (decimal (pos (before + amount))) _ k2) [
          | ran paid_text printed_paid k3 ↦
              let few : due < amount_limit = scaled_bound invoice.balance_due read_due in
              let back =
                value_decimal (due - amount) (omega arith)
                  (rw (sub_pos due amount enough) at printed) in
              subst (IsSettled amount invoice) (ok-injective k3) (record {
                due = due;
                already = before;
                reads_due = read_due;
                reads_paid = read_paid;
                some_amount = positive;
                not_above = enough;
                new_due = back;
                new_paid = printed_paid;
                all_paid = λ e. ground arith;
                some_left = λ n. ground arith;
              })
        ]
      ]
    ]
