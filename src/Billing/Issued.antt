-- ===== src/Billing/Issued.antt =====
-- What a checkout that issues an invoice has written (billing.ts, `checkout`).
use cafe_retail_software.Billing.{invoice_of}
use cafe_retail_software.Database.{Database}
use cafe_retail_software.Billing.Tender.{Tendered}
use mathlib.Core.Path.{subst}
use cafe_retail_software.Prelude.Int.{pos}
use cafe_retail_software.Money.Bounds.{amount_limit, scaled_bound, value_decimal}
use cafe_retail_software.Replay.{RequestKey}
use cafe_retail_software.Money.{scaled, Text, decimal}
use cafe_retail_software.Documents.Invoices.{Invoice}
use cafe_retail_software.Security.{Scope}
use cafe_retail_software.Prelude.{
  ℕ, ◌≡◌, ◌≤◌, ◌-◌, ◌<◌, arith, refl, List, Option, ◌++◌, map, ◌∷◌, [], sym, some, modify_first,
  none, ◌∙◌,
}
use cafe_retail_software.Billing.Checkout.{store_invoice, insert_payments}
use cafe_retail_software.Billing.Sale.{Sale, sale_invoice, Occasion, sale_status, stored_payment}
use cafe_retail_software.Result.{ok, ok-injective}
use mathlib.Core.List.{append-nil, append_assoc}
use cafe_retail_software.Result.Pure
use cafe_retail_software.Mongo.{Mongo}

-- The amounts of an invoice that is issued, and its status.
pub record HasAmounts (sale : Sale) (paid_now : ℕ) (invoice : Invoice) : Type 0 where
  pub total_read : scaled invoice.grand_total ≡ ok sale.amount
  pub paid_read : scaled invoice.paid_amount ≡ ok paid_now
  pub due_read : scaled invoice.balance_due ≡ ok (sale.amount - paid_now)
  pub items_of : invoice.items ≡ sale.quoted.items
  pub status_of : invoice.status ≡ sale_status sale.amount paid_now

pub sale_invoice-HasAmounts :
    (scope : Scope) (o : Occasion) (key : RequestKey) (sale : Sale) (id : ℕ) (number : Text)
    (paid_now : ℕ) {invoice : Invoice}
    → scaled sale.quoted.grand_total ≡ ok sale.amount
    → paid_now ≤ sale.amount
    → sale_invoice scope o key sale id number paid_now ≡ ok invoice
    → HasAmounts sale paid_now invoice
      × (invoice.id ≡ id)
      × (invoice.company_id ≡ scope.company.id)
      × (invoice.idempotency_key ≡ key.id)
      × (invoice.request_hash ≡ key.hash)
      × (invoice.branch_id ≡ sale.quoted.branch_id)
unfolding sale_invoice
sale_invoice-HasAmounts scope o key sale id number paid_now total fits h =
    let few : sale.amount < amount_limit = scaled_bound sale.quoted.grand_total total in
    elim (Pure.>>=-eq-ok (decimal (pos paid_now)) _ h) [
      | Pure.ran paid_text printed h1 ↦
          elim (Pure.>>=-eq-ok (decimal (pos (sale.amount - paid_now))) _ h1) [
            | Pure.ran due_text printed_due h2 ↦
                subst
                  (λ (i : Invoice).
                    HasAmounts sale paid_now i
                    × (i.id ≡ id)
                    × (i.company_id ≡ scope.company.id)
                    × (i.idempotency_key ≡ key.id)
                    × (i.request_hash ≡ key.hash)
                    × (i.branch_id ≡ sale.quoted.branch_id))
                  (ok-injective h2)
                  (
                    record {
                      total_read = total;
                      paid_read = value_decimal paid_now (omega arith) printed;
                      due_read = value_decimal (sale.amount - paid_now) (omega arith) printed_due;
                      items_of = refl;
                      status_of = refl;
                    },
                    refl,
                    refl,
                    refl,
                    refl,
                    refl,
                  )
          ]
    ]

-- The invoices after one is issued: it is added, or put in the place of its draft.
abbrev pub with_invoice : Option ℕ → Invoice → List Invoice → List Invoice
with_invoice none invoice rows = rows ++ (invoice ∷ [])
with_invoice (some id) invoice rows =
    modify_first (invoice_of id invoice.company_id) (λ r. invoice) rows

module _ (m : Mongo) where
  -- The payments of an invoice are added in their order.
  pub insert_payments_effect :
      (invoice : Invoice) (branch today : ℕ) (tendered : List Tendered) (s : Database m)
      {t : Database m}
      → insert_payments m invoice branch today tendered s ≡ ok (tt, t)
      → m.docs t.invoice_payments
        ≡ m.docs s.invoice_payments ++ map (stored_payment invoice branch today) tendered
  unfolding insert_payments
  insert_payments_effect invoice branch today [] s {t = t} h =
      subst (λ p. m.docs p.1.invoice_payments ≡ m.docs s.invoice_payments ++ []) (ok-injective h)
        (sym (append-nil (m.docs s.invoice_payments)))
  insert_payments_effect invoice branch today (one ∷ rest) s h =
      let added = m.insert_one (stored_payment invoice branch today one) s.invoice_payments in
      let later =
        insert_payments_effect invoice branch today rest (record s { invoice_payments = added })
          h in
      later
      ∙ rw (m.docs-insert_one (stored_payment invoice branch today one) s.invoice_payments)
          (append_assoc (m.docs s.invoice_payments) _ _)

  pub store_invoice_effect :
      (draft : Option ℕ) (invoice : Invoice) (s : Database m) {t : Database m}
      → store_invoice m draft invoice s ≡ ok (tt, t)
      → m.docs t.invoices ≡ with_invoice draft invoice (m.docs s.invoices)
  unfolding store_invoice
  store_invoice_effect none invoice s h =
      subst (λ p. m.docs p.1.invoices ≡ m.docs s.invoices ++ (invoice ∷ [])) (ok-injective h)
        (m.docs-insert_one invoice s.invoices)
  store_invoice_effect (some id) invoice s h =
      subst
        (λ p.
          m.docs p.1.invoices
          ≡ modify_first (invoice_of id invoice.company_id) (λ r. invoice) (m.docs s.invoices))
        (ok-injective h) (m.docs-update_one _ _ s.invoices)
