-- ===== src/Consistency/Sales.antt =====
-- An invoice that a checkout has issued passes the check of consistency.ts (billing.ts, consistency.ts).
use cafe_retail_software.Money.Exact.{scaled-decimal_exact}
use cafe_retail_software.Billing.Outcome.{checkout-IsIssued}
use cafe_retail_software.Database.{Database}
use cafe_retail_software.Money.{scaled}
use cafe_retail_software.Billing.Paid.{IsTendered}
use cafe_retail_software.Documents.{InvoicePayment}
use cafe_retail_software.Billing.Tax.{sum_texts}
use cafe_retail_software.Replay.{RequestKey}
use cafe_retail_software.Billing.Tender.{Tendered, paid_sum}
use cafe_retail_software.Documents.Invoices.{Invoice}
use cafe_retail_software.Billing.Checkout.{checkout}
use cafe_retail_software.Billing.Sale.{Occasion, CheckoutBody, stored_payment}
use cafe_retail_software.Security.{Scope}
use cafe_retail_software.Consistency.{
  paid_texts, lines_agree, payments_agree, due_agrees, collected_for,
}
use cafe_retail_software.Prelude.{
  Bool, ℕ, List, keep_all, ◌++◌, All, ◌≡◌, ◌∷◌, ◌≢◌, arith, map, ◌+◌, true, [], refl, false,
  Bool-cases, ◌-◌, inl, inr, ◌≤◌, ◌∙◌, ap,
}
use cafe_retail_software.Result.{ok}
use cafe_retail_software.Mongo.{Mongo}

keep_all-append :
    {A : Type 0} (p : A → Bool) (xs ys : List A)
    → keep_all p (xs ++ ys) ≡ keep_all p xs ++ keep_all p ys
keep_all-append p [] ys = refl
keep_all-append p (x ∷ xs) ys = ground (arith, keep_all-append p xs ys)

-- No payment of an invoice is among others'.
none_collected :
    (id : ℕ) (payments : List InvoicePayment)
    → All (λ p. p.invoice_id ≢ id) payments
    → keep_all (collected_for id) payments ≡ []
none_collected id [] h = refl
none_collected id (p ∷ ps) (far, h) = ground (arith, none_collected id ps h)

paid_texts-stored :
    (invoice : Invoice) (branch today : ℕ) (tendered : List Tendered)
    → All IsTendered tendered
    → paid_texts
        (keep_all (collected_for invoice.id) (map (stored_payment invoice branch today) tendered))
      ≡ ok (paid_sum tendered)
unfolding paid_texts
paid_texts-stored invoice branch today [] h = refl
paid_texts-stored invoice branch today (t ∷ ts) (own, h) =
    let rest = paid_texts-stored invoice branch today ts h in
    let read = own.reads_back in
    elim (Bool-cases t.is_credit_marker) [ inl credits ↦ ground arith | inr cash ↦ ground arith ]

split_total : (amount paid_now : ℕ) → paid_now ≤ amount → amount ≡ paid_now + (amount - paid_now)
split_total amount paid_now h = omega arith

lines_agree_read :
    (invoice : Invoice) {n : ℕ}
    → sum_texts (λ i. i.line_total) invoice.items ≡ ok n
    → scaled invoice.grand_total ≡ ok n
    → lines_agree invoice ≡ ok true
unfolding lines_agree
lines_agree_read invoice {n = n} lines total = ground arith

payments_agree_read :
    (payments : List InvoicePayment) (invoice : Invoice) (paid_now due : ℕ)
    → paid_texts (keep_all (collected_for invoice.id) payments) ≡ ok paid_now
    → scaled invoice.paid_amount ≡ ok paid_now
    → scaled invoice.balance_due ≡ ok due
    → scaled invoice.grand_total ≡ ok (paid_now + due)
    → payments_agree payments invoice ≡ ok true
unfolding payments_agree due_agrees
payments_agree_read payments invoice paid_now due texts recorded rest total = ground arith

module _ (m : Mongo) where
  -- An invoice that a checkout has issued, under an identifier that no stored payment names yet, passes both
  -- tests of the reconciliation against the payments that are then stored: its lines make its total, its
  -- payments make what is recorded as paid, and that and the balance make the total.
  pub checkout_agrees :
      (scope : Scope) (o : Occasion) (key : RequestKey) (body : CheckoutBody) (s : Database m)
      {invoice : Invoice} {t : Database m}
      → checkout m scope o key body s ≡ ok ((invoice, false), t)
      → All (λ p. p.invoice_id ≢ invoice.id) (m.docs s.invoice_payments)
      → (lines_agree invoice ≡ ok true)
        × (payments_agree (m.docs t.invoice_payments) invoice ≡ ok true)
  checkout_agrees scope o key body s {invoice = invoice} h far =
      let i = checkout-IsIssued m scope o key body s h in
      let a = i.written.amounts in
      let exact : i.priced.totalled.total ≡ i.sale.amount =
        scaled-decimal_exact i.priced.totalled.total i.priced.totalled.printed
          i.priced.reads_total in
      let collected_now =
        paid_texts-stored invoice i.sale.branch.id o.today i.tendered i.paid_now.each in
      (
        lines_agree_read invoice (rw (a.items_of, ← exact) i.priced.totalled.summed) a.total_read,
        payments_agree_read _ invoice (paid_sum i.tendered) (i.sale.amount - paid_sum i.tendered)
            (rw
              (
                i.written.payments,
                keep_all-append (collected_for invoice.id) (m.docs s.invoice_payments)
                    (map (stored_payment invoice i.sale.branch.id o.today) i.tendered),
                none_collected invoice.id (m.docs s.invoice_payments) far,
              )
              collected_now)
            a.paid_read a.due_read (a.total_read ∙ ap ok (split_total _ _ i.paid_now.not_above)),
      )
