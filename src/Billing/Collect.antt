-- ===== src/Billing/Collect.antt =====
-- apps/web/src/server/financial.ts: a payment for an invoice is collected, or a draft cancelled; and
-- ledger.ts: a customer pays on account.
use cafe_retail_software.Prelude.Int.{pos}
use cafe_retail_software.Documents.{
  PaymentMode, InvoicePayment, CustomerPayment, payment_entry, LedgerEntry,
}
use cafe_retail_software.Documents.Operations.{Outcome, invoice_outcome}
use cafe_retail_software.Closing.{writable_day}
use cafe_retail_software.Result.{Action, pure, ◌>>=◌, ◌>>◌, lift, require_value, modify}
use cafe_retail_software.Money.{Text, decimal, trimmed_length, scaled}
use cafe_retail_software.Security.{audit, Scope, sellers, authorized_branch, allow}
use cafe_retail_software.Billing.Bill.{finalize_cafe_bill}
use cafe_retail_software.Prelude.{
  Option, Bool, ℕ, true, false, some, none, or_else, not, leb, ◌||◌, given_or, ◌==◌,
}
use cafe_retail_software.Database.{
  next_id, Database, required_row, invoice_payment_counter, customer_payment_counter,
}
use cafe_retail_software.Replay.{replay, RequestKey, save_replay}
use cafe_retail_software.Ledger.{scoped_customer, post_ledger}
use cafe_retail_software.Billing.{
  can_pay, payable, PaymentInput, settled, invoice_in_scope, active_mode, is_draft, invoice_of,
  is_credit, copy_settled,
}
use cafe_retail_software.Documents.Invoices.{
  SourceType, Invoice, cafe_table_session, cafe_takeaway, retail_sale, cancelled,
}
use cafe_retail_software.Mongo.{Mongo}

-- `updated.source_type?.startsWith("cafe_")`
abbrev pub from_cafe : SourceType → Bool
from_cafe cafe_table_session = true
from_cafe cafe_takeaway = true
from_cafe retail_sale = false

-- The body of a payment on account.
pub record AccountPayment : Type 0 where
  pub branch_id : Option ℕ
  pub payment : PaymentInput

module _ (m : Mongo) where
  -- An active mode of the company that is no credit, with a reference where it asks for one.
  unfoldable pub collecting_mode : Scope → PaymentInput → Action (Database m) PaymentMode
  collecting_mode scope input = do
    mode ←
        required_row m (active_mode scope.company.id input.payment_mode_id) (λ s. s.payment_modes)
    require_value (not (is_credit mode.mode_type))
    require_value (not mode.requires_reference || leb 1 (trimmed_length input.reference_number))
    pure mode

  unfoldable pub insert_payment :
      Scope → ℕ → Invoice → PaymentMode → ℕ → Action (Database m) InvoicePayment
  unfolding next_id
  insert_payment scope today invoice mode amount = do
    text ← lift (decimal (pos amount))
    id ← next_id m invoice_payment_counter
    let payment : InvoicePayment = record {
      id = id;
      company_id = scope.company.id;
      branch_id = invoice.branch_id;
      invoice_id = invoice.id;
      mode_type = mode.mode_type;
      amount = text;
      is_credit_marker = false;
      business_date = today;
    }
    modify (λ s. record s { invoice_payments = m.insert_one payment s.invoice_payments })
    pure payment

  -- What a customer pays is posted to the customer's ledger.
  unfoldable pub post_payment : Scope → Option ℕ → ℕ → ℕ → ℕ → Action (Database m) (Unit {0})
  unfolding post_ledger scoped_customer
  post_payment scope none amount reference branch = pure tt
  post_payment scope (some id) amount reference branch = do
    customer ← scoped_customer m scope id
    entry ← post_ledger m scope customer.id (record {
      debit = 0;
      credit = amount;
      entry_type = payment_entry;
      reference_id = reference;
      branch_id = branch;
    })
    pure tt

  unfoldable pub finalize_if : Bool → Scope → Invoice → Action (Database m) (Unit {0})
  unfolding finalize_cafe_bill
  finalize_if true scope invoice = finalize_cafe_bill m scope invoice
  finalize_if false scope invoice = pure tt

  -- The payment of an invoice, for a request that was not done before.
  unfoldable pub collect :
      Scope → ℕ → RequestKey → Invoice → PaymentInput → Action (Database m) Invoice
  unfolding can_pay payable settled writable_day collecting_mode insert_payment post_payment
      finalize_if save_replay
  collect scope today key invoice input = do
    require_value (can_pay invoice.status)
    writable_day m scope invoice.branch_id today
    amounts ← lift (payable input.amount invoice)
    mode ← collecting_mode scope input
    payment ← insert_payment scope today invoice mode amounts.0
    updated ← lift (settled amounts.0 amounts.1 invoice)
    modify (λ s. record s {
      invoices =
          m.update_one (invoice_of invoice.id scope.company.id) (copy_settled updated) s.invoices;
    })
    post_payment scope invoice.customer_id amounts.0 payment.id invoice.branch_id
    finalize_if (from_cafe updated.source_type) scope updated
    save_replay m key (invoice_outcome updated)
    pure updated

  unfoldable pub collect_or_replay :
      Scope → ℕ → RequestKey → Invoice → PaymentInput → Option Outcome → Action (Database m) Outcome
  unfolding collect
  collect_or_replay scope today key invoice input (some old) = pure old
  collect_or_replay scope today key invoice input none = do
    updated ← collect scope today key invoice input
    pure (invoice_outcome updated)

  unfoldable pub collect_payment :
      Scope → ℕ → RequestKey → ℕ → PaymentInput → Action (Database m) Outcome
  unfolding replay collect_or_replay sellers
  collect_payment scope today key id input = do
    allow scope.user sellers
    invoice ← required_row m (invoice_in_scope scope id) (λ s. s.invoices)
    old ← replay m key
    collect_or_replay scope today key invoice input old

  -- Only a draft is cancelled, with a reason.
  unfoldable pub cancel_invoice : Scope → ℕ → Text → Action (Database m) Invoice
  unfolding audit sellers
  cancel_invoice scope id reason = do
    allow scope.user sellers
    invoice ← required_row m (invoice_in_scope scope id) (λ s. s.invoices)
    require_value (is_draft invoice.status)
    require_value (leb 3 (trimmed_length reason))
    modify (λ s. record s {
      invoices =
          m.update_one (invoice_of id scope.company.id) (λ r. record r { status = cancelled })
            s.invoices;
    })
    audit m scope id
    pure (record invoice { status = cancelled })

  -- ledger.ts: a customer's payment on account, with the entry that it is posted as.
  unfoldable pub receive_payment :
      Scope → ℕ → ℕ → AccountPayment → Action (Database m) (CustomerPayment × LedgerEntry)
  unfolding given_or scoped_customer authorized_branch collecting_mode next_id post_ledger sellers
  receive_payment scope today id body = do
    allow scope.user sellers
    customer ← scoped_customer m scope id
    branch ← authorized_branch m scope (or_else (given_or body.branch_id customer.branch_id) 0)
    amount ← lift (scaled body.payment.amount)
    require_value (leb 1 amount)
    mode ← collecting_mode scope body.payment
    text ← lift (decimal (pos amount))
    payment_id ← next_id m customer_payment_counter
    let payment : CustomerPayment = record {
      id = payment_id;
      company_id = scope.company.id;
      branch_id = branch.id;
      customer_id = customer.id;
      mode_type = mode.mode_type;
      amount = text;
      business_date = today;
      ledger_entry_id = none;
    }
    modify (λ s. record s { customer_payments = m.insert_one payment s.customer_payments })
    entry ← post_ledger m scope customer.id (record {
      debit = 0;
      credit = amount;
      entry_type = payment_entry;
      reference_id = payment_id;
      branch_id = branch.id;
    })
    modify (λ s. record s {
      customer_payments =
          m.update_one (λ r. r.id == payment_id) (λ r. record r { ledger_entry_id = some entry.id })
            s.customer_payments;
    })
    pure (record payment { ledger_entry_id = some entry.id }, entry)
