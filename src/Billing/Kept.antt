-- ===== src/Billing/Kept.antt =====
-- What the steps of a payment leave alone (financial.ts, ledger.ts, cafe-billing.ts).
use mathlib.Core.Path.{subst}
use cafe_retail_software.Prelude.Int.{pos, ◌+ℤ◌, ◌-ℤ◌, ℤ}
use cafe_retail_software.Money.{scaled, decimal, trimmed_length, Text}
use cafe_retail_software.Result.{
  ok, lift->>=-eq-ok, reads, >>=-eq-ok, ensure->>-eq-ok, ran, validation_error, ok-injective,
}
use cafe_retail_software.Documents.{PaymentMode, LedgerEntry, InvoicePayment, Customer}
use cafe_retail_software.Database.{Database, required_row->>=-eq-ok, found_row}
use cafe_retail_software.Billing.{PaymentInput, is_credit, active_mode}
use cafe_retail_software.Prelude.{
  ℕ, Bool, Option, ◌≡◌, arith, false, some, ◌==◌, true, not, none, ◌∙◌, ◌||◌, leb, refl,
}
use cafe_retail_software.Documents.Invoices.{
  SourceType, Invoice, cafe_table_session, cafe_takeaway, retail_sale,
}
use cafe_retail_software.Security.{Scope}
use cafe_retail_software.Billing.Bill.{
  finalize_source, finalize_cafe_bill, session_of, billed_order, bill_order,
}
use cafe_retail_software.Ledger.{
  post_ledger, write_balance, insert_entry, Posting, customer_of, usable_customer, outstanding,
}
use cafe_retail_software.Billing.Collect.{
  finalize_if, collecting_mode, post_payment, insert_payment,
}
use cafe_retail_software.Mongo.{Mongo}

module _ (m : Mongo) where
  pub collecting_mode_keeps :
      (scope : Scope) (input : PaymentInput) (s : Database m) {mode : PaymentMode} {t : Database m}
      → collecting_mode m scope input s ≡ ok (mode, t)
      → (t ≡ s) × (is_credit mode.mode_type ≡ false)
  unfolding collecting_mode
  collecting_mode_keeps scope input s h =
      elim (required_row->>=-eq-ok m (active_mode scope.company.id input.payment_mode_id)
        (λ s. s.payment_modes) _ s h) [
          | found_row mode passes one h1 ↦
              let (no_credit, h2) =
                ensure->>-eq-ok (not (is_credit mode.mode_type)) validation_error _ s h1 in
              let (_, h3) =
                ensure->>-eq-ok
                  (not mode.requires_reference || leb 1 (trimmed_length input.reference_number))
                  validation_error _ s h2 in
              subst (λ p. (p.1 ≡ s) × (is_credit p.0.mode_type ≡ false)) (ok-injective h3)
                (refl, ground arith)
        ]

  pub insert_payment_effect :
      (scope : Scope) (today : ℕ) (invoice : Invoice) (mode : PaymentMode) (amount : ℕ)
      (s : Database m) {payment : InvoicePayment} {t : Database m}
      → insert_payment m scope today invoice mode amount s ≡ ok (payment, t)
      → (t.invoices ≡ s.invoices)
        × (t.invoice_payments ≡ m.insert_one payment s.invoice_payments)
        × (decimal (pos amount) ≡ ok payment.amount)
        × (payment.invoice_id ≡ invoice.id)
  unfolding insert_payment
  insert_payment_effect scope today invoice mode amount s h = ground arith

  insert_entry_keeps :
      (company customer : ℕ) (p : Posting) (running : Text) (s : Database m) {entry : LedgerEntry}
      {t : Database m}
      → insert_entry m company customer p running s ≡ ok (entry, t)
      → (t.invoices ≡ s.invoices) × (t.invoice_payments ≡ s.invoice_payments)
  unfolding insert_entry
  insert_entry_keeps company customer p running s h = ground arith

  write_balance_keeps :
      (company : ℕ) (current : Customer) (balance : ℤ) (s : Database m) {text : Text}
      {t : Database m}
      → write_balance m company current balance s ≡ ok (text, t)
      → (t.invoices ≡ s.invoices) × (t.invoice_payments ≡ s.invoice_payments)
  unfolding write_balance
  write_balance_keeps company current balance s h = ground arith

  post_ledger_keeps :
      (scope : Scope) (customer : ℕ) (p : Posting) (s : Database m) {entry : LedgerEntry}
      {t : Database m}
      → post_ledger m scope customer p s ≡ ok (entry, t)
      → (t.invoices ≡ s.invoices) × (t.invoice_payments ≡ s.invoice_payments)
  unfolding post_ledger
  post_ledger_keeps scope customer p s h =
      elim (required_row->>=-eq-ok m (customer_of scope.company.id customer) (λ s. s.customers) _ s
        h) [
          | found_row current passes one h1 ↦ elim (lift->>=-eq-ok (outstanding current) _ s h1) [
            | reads balance owes h2 ↦
                elim (>>=-eq-ok
                  (write_balance m scope.company.id current
                    (balance +ℤ pos p.debit -ℤ pos p.credit))
                  _ s h2) [
                    | ran text u wrote h3 ↦
                        let (a, b) = write_balance_keeps scope.company.id current _ s wrote in
                        let (c, d) = insert_entry_keeps scope.company.id customer p text u h3 in
                        (c ∙ a, d ∙ b)
                  ]
          ]
        ]

  pub post_payment_keeps :
      (scope : Scope) (customer : Option ℕ) (amount reference branch : ℕ) (s : Database m)
      {t : Database m}
      → post_payment m scope customer amount reference branch s ≡ ok (tt, t)
      → (t.invoices ≡ s.invoices) × (t.invoice_payments ≡ s.invoice_payments)
  unfolding post_payment
  post_payment_keeps scope none amount reference branch s h = ground arith
  post_payment_keeps scope (some id) amount reference branch s h =
      elim (required_row->>=-eq-ok m (usable_customer scope id) (λ s. s.customers) _ s h) [
        | found_row customer passes one h1 ↦
            elim (>>=-eq-ok (post_ledger m scope customer.id _) _ s h1) [
              | ran entry u posted h2 ↦
                  let (a, b) = post_ledger_keeps scope customer.id _ s posted in
                  subst
                    (λ p. (p.1.invoices ≡ s.invoices) × (p.1.invoice_payments ≡ s.invoice_payments))
                    (ok-injective h2) (a, b)
            ]
      ]

  finalize_source_keeps :
      (source : SourceType) (scope : Scope) (is_closed : Bool) (invoice : Invoice) (s : Database m)
      {t : Database m}
      → finalize_source m source scope is_closed invoice s ≡ ok (tt, t)
      → (t.invoices ≡ s.invoices) × (t.invoice_payments ≡ s.invoice_payments)
  unfolding finalize_source
  finalize_source_keeps cafe_table_session scope is_closed invoice s h =
      elim (required_row->>=-eq-ok m (session_of scope.company.id invoice.source_id)
        (λ s. s.sessions) _ s h) [ found_row row passes one h1 ↦ ground arith ]
  finalize_source_keeps cafe_takeaway scope is_closed invoice s h = ground arith
  finalize_source_keeps retail_sale scope is_closed invoice s h = ground arith

  pub finalize_if_keeps :
      (yes_cafe : Bool) (scope : Scope) (invoice : Invoice) (s : Database m) {t : Database m}
      → finalize_if m yes_cafe scope invoice s ≡ ok (tt, t)
      → (t.invoices ≡ s.invoices) × (t.invoice_payments ≡ s.invoice_payments)
  unfolding finalize_if finalize_cafe_bill
  finalize_if_keeps true scope invoice s h =
      elim (lift->>=-eq-ok (scaled invoice.balance_due) _ s h) [
        | reads balance read h1 ↦
            finalize_source_keeps invoice.source_type scope (balance == 0) invoice
              (record s {
                orders =
                    m.update_many (billed_order scope.company.id invoice)
                      (bill_order (balance == 0) invoice.id) s.orders;
              })
              h1
      ]
  finalize_if_keeps false scope invoice s h = ground arith
