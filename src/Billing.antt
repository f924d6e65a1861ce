-- ===== src/Billing.antt =====
-- apps/web/src/server/financial.ts and cafe-billing.ts: the balance of an invoice, and what a payment makes
-- of it.
pub mod Bill
pub mod Collect
pub mod Balance
pub mod Tax
pub mod Taxes
pub mod Cart
pub mod Quote
pub mod Lines
pub mod Kept
pub mod Payments
pub mod Accounts
pub mod Tender
pub mod Requested
pub mod Numbers
pub mod Sources
pub mod Steps
pub mod Sale
pub mod Checkout
pub mod Reading
pub mod Totals
pub mod Asked
pub mod Taken
pub mod Writes
pub mod Paid
pub mod Priced
pub mod Issued
pub mod Written
pub mod Outcome
pub mod Sold
pub mod Again
pub mod Owed
pub mod Numbered
pub mod Drafts
pub mod Drafted
pub mod Series
use cafe_retail_software.Prelude.Int.{pos, ◌-ℤ◌}
use cafe_retail_software.Result.{Result, validation_error, ok}
use cafe_retail_software.Documents.{ModeType, PaymentMode, credit}
use cafe_retail_software.Prelude.{ℕ, Bool, true, ◌==◌, false, ltb, ◌&&◌, leb, ◌+◌, if◌then◌else◌}
use cafe_retail_software.Money.{Text, scaled, decimal}
use cafe_retail_software.Documents.Invoices.{
  InvoiceStatus, Invoice, draft, cancelled, voided, returned, paid, partial_paid,
}
use cafe_retail_software.Security.{Scope, in_scope}
use cafe_retail_software.Result.Pure.{◌>>=◌, ◌>>◌, guard}

-- A payment in a request's body.
pub record PaymentInput : Type 0 where
  pub amount : Text
  pub payment_mode_id : ℕ
  pub reference_number : Text

abbrev pub is_credit : ModeType → Bool
is_credit credit = true
is_credit _ = false

abbrev pub active_mode : ℕ → ℕ → PaymentMode → Bool
active_mode company id r = (r.company_id == company) && (r.id == id) && r.is_active

-- Not in `["draft", "cancelled", "voided", "returned"]`.
pub can_pay : InvoiceStatus → Bool
can_pay draft = false
can_pay cancelled = false
can_pay voided = false
can_pay returned = false
can_pay _ = true

abbrev pub is_draft : InvoiceStatus → Bool
is_draft draft = true
is_draft _ = false

abbrev pub invoice_in_scope : Scope → ℕ → Invoice → Bool
invoice_in_scope scope id r = in_scope scope r.company_id r.branch_id && (r.id == id)

abbrev pub invoice_of : ℕ → ℕ → Invoice → Bool
invoice_of id company r = (r.id == id) && (r.company_id == company)

-- The amount that is paid and the amount that is due, where the payment is positive and not above it.
unfoldable pub payable : Text → Invoice → Result (ℕ × ℕ)
payable text invoice = do
  amount ← scaled text
  due ← scaled invoice.balance_due
  guard (ltb 0 amount && leb amount due) validation_error
  ok (amount, due)

-- What is set in the invoice: its balance, what is paid of it, and its status.
unfoldable pub settled : ℕ → ℕ → Invoice → Result Invoice
settled amount due invoice = do
  balance ← decimal (pos due -ℤ pos amount)
  before ← scaled invoice.paid_amount
  paid_text ← decimal (pos (before + amount))
  ok (record invoice {
    balance_due = balance;
    paid_amount = paid_text;
    status = if due == amount then paid else partial_paid;
  })

abbrev pub copy_settled : Invoice → Invoice → Invoice
copy_settled from r = record r {
  balance_due = from.balance_due;
  paid_amount = from.paid_amount;
  status = from.status;
}
