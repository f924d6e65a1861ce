-- ===== src/Consistency.antt =====
-- apps/web/src/server/consistency.ts: the stored invoices, payments, stock and orders are checked against each
-- other, and the result is recorded. The other routes only read.
pub mod Check
pub mod Sales
use cafe_retail_software.Prelude.Int.{ltb_ℤ, pos}
use cafe_retail_software.Money.{scaled, is_safe}
use cafe_retail_software.Documents.Cafe.{Order}
use cafe_retail_software.Billing.Tax.{sum_texts}
use cafe_retail_software.Documents.{Inventory, Reconciliation, InvoicePayment}
use cafe_retail_software.Result.Pure.{◌>>=◌}
use cafe_retail_software.Result.{Result, ok, map_ok}
use cafe_retail_software.Prelude.{
  true, false, none, some, Bool, List, ℕ, not, Option, length, ◌∷◌, [], map, ◌==◌, ◌+◌, keep_all,
  ◌++◌, ◌||◌, includes, ◌&&◌,
}
use cafe_retail_software.Documents.Invoices.{InvoiceStatus, Invoice, draft, cancelled, returned}

-- `["draft", "cancelled", "returned"]` are passed over.
pub is_checked : InvoiceStatus → Bool
is_checked draft = false
is_checked cancelled = false
is_checked returned = false
is_checked _ = true

-- The lines' totals make the invoice's total.
unfoldable pub lines_agree : Invoice → Result Bool
unfolding sum_texts
lines_agree invoice = do
  lines ← sum_texts (λ i. i.line_total) invoice.items
  total ← scaled invoice.grand_total
  ok (lines == total)

abbrev pub collected_for : ℕ → InvoicePayment → Bool
collected_for id p = (p.invoice_id == id) && not p.is_credit_marker

pub paid_texts : List InvoicePayment → Result ℕ
paid_texts [] = ok 0
paid_texts (p ∷ ps) = do n ← scaled p.amount; rest ← paid_texts ps; ok (n + rest)

-- What is due with what is paid makes the total.
unfoldable pub due_agrees : ℕ → Invoice → Result Bool
due_agrees paid_now invoice = do
  due ← scaled invoice.balance_due
  total ← scaled invoice.grand_total
  ok (paid_now + due == total)

-- The payments make what is recorded as paid. Only then are the other amounts read.
unfoldable pub payments_agree : List InvoicePayment → Invoice → Result Bool
unfolding paid_texts due_agrees
payments_agree payments invoice = do
  paid_now ← paid_texts (keep_all (collected_for invoice.id) payments)
  recorded ← scaled invoice.paid_amount
  elim (paid_now == recorded) [ true ↦ due_agrees paid_now invoice | false ↦ ok false ]

-- The invoices whose lines, and those whose payments, do not agree.
unfoldable pub add_issue : Bool → ℕ → List ℕ → List ℕ
add_issue true id issues = issues
add_issue false id issues = id ∷ issues

unfoldable pub check_invoice :
    Bool → List InvoicePayment → Invoice → List ℕ × List ℕ → Result (List ℕ × List ℕ)
unfolding add_issue lines_agree payments_agree
check_invoice false payments invoice later = ok later
check_invoice true payments invoice (line_issues, payment_issues) = do
  lines_good ← lines_agree invoice
  payments_good ← payments_agree payments invoice
  ok (
    add_issue lines_good invoice.id line_issues,
    add_issue payments_good invoice.id payment_issues,
  )

unfoldable pub check_invoices : List InvoicePayment → List Invoice → Result (List ℕ × List ℕ)
unfolding check_invoice is_checked
check_invoices payments [] = ok ([], [])
check_invoices payments (invoice ∷ invoices) = do
  later ← check_invoices payments invoices
  check_invoice (is_checked invoice.status) payments invoice later

-- Payments of invoices that are not there.
abbrev pub orphans : List ℕ → List InvoicePayment → List ℕ
orphans ids payments =
    map (λ p. p.invoice_id) (keep_all (λ p. not (includes p.invoice_id ids)) payments)

-- A quantity that is no safe integer, or less than nothing.
abbrev pub bad_stock : Inventory → Bool
bad_stock r =
    not (is_safe r.quantity_scaled)
    || ltb_ℤ r.quantity_scaled (pos 0)
    || ltb_ℤ r.on_order_scaled (pos 0)

-- An order that is billed by an invoice that is not there.
abbrev pub bad_order : List ℕ → Order → Bool
bad_order ids r = elim r.billed_invoice_id [ none ↦ false | some id ↦ not (includes id ids) ]

abbrev pub no_issues : Reconciliation → Bool
no_issues r =
    length r.invoice_issues
      + length r.payment_issues
      + length r.stock_issues
      + length r.order_issues
    == 0

-- The check of some documents.
unfoldable pub report :
    ℕ
    → Option ℕ
    → List Invoice
    → List InvoicePayment
    → List Inventory
    → List Order
    → Result Reconciliation
unfolding check_invoices
report company branch invoices payments stock orders = do
  issues ← check_invoices payments invoices
  let ids : List ℕ = map (λ i. i.id) invoices
  let found : Reconciliation = record {
    id = 0;
    company_id = company;
    branch_id = branch;
    is_clean = true;
    invoice_issues = issues.0;
    payment_issues = issues.1 ++ orphans ids payments;
    stock_issues = map (λ r. r.id) (keep_all bad_stock stock);
    order_issues = map (λ r. r.id) (keep_all (bad_order ids) orders);
  }
  ok (record found { is_clean = no_issues found })
