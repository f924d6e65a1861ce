-- ===== src/Billing/Sale.antt =====
-- apps/web/src/server/billing.ts, `checkout`: what a sale is computed from, without the database.
use cafe_retail_software.Prelude.Int.{pos}
use cafe_retail_software.Money.{Text, decimal}
use cafe_retail_software.Replay.{RequestKey}
use cafe_retail_software.Billing.Tender.{PaymentsInput, Tendered}
use cafe_retail_software.Billing.Sources.{Loaded, BillSource}
use cafe_retail_software.Security.{Scope}
use cafe_retail_software.Billing.Cart.{Quote}
use cafe_retail_software.Documents.Invoices.{QuoteBody}
use cafe_retail_software.Result.{Result, ok}
use cafe_retail_software.Result.Pure
use cafe_retail_software.Prelude.{
  none, some, true, false, ℕ, Bool, Option, if◌then◌else◌, or_else, [], ◌&&◌, ◌==◌, ◌-◌,
}
use cafe_retail_software.Documents.Invoices.{
  Invoice, InvoiceStatus, SourceType, paid, partial_paid, credited, cafe_takeaway, retail_sale,
}
use cafe_retail_software.Documents.Cafe.{Order, OrderType, closed, counter}
use cafe_retail_software.Documents.{InvoicePayment, Customer, Branch}

-- The parts of the request's body: the cart, the payments, and what a cafe's counter sends in their place.
pub record CheckoutBody : Type 0 where
  pub cart : QuoteBody
  pub payments : PaymentsInput
  pub payment_mode_id : ℕ
  pub reference_number : Text
  pub order_type : Option OrderType

-- The rest of a call: the day, a random identifier, and the draft or the cafe's bill that is issued.
pub record Occasion : Type 0 where
  pub today : ℕ
  pub fresh_id : ℕ
  pub at_cafe : Bool
  pub draft_id : Option ℕ
  pub source : Option BillSource

-- What a checkout has found before it takes payments.
pub record Sale : Type 0 where
  pub quoted : Quote
  pub branch : Branch
  pub customer : Option Customer
  pub amount : ℕ
  pub source_type : SourceType

-- `{ ...body, ...sourceData.body }`
abbrev pub working_cart : QuoteBody → Option Loaded → QuoteBody
working_cart cart none = cart
working_cart cart (some l) = record cart { branch_id = l.branch_id; items = l.entries }

abbrev pub type_of_sale : Bool → Option Loaded → SourceType
type_of_sale at_cafe (some l) = l.source_type
type_of_sale true none = cafe_takeaway
type_of_sale false none = retail_sale

abbrev pub source_id_of : Occasion → ℕ
source_id_of o = elim o.source [ some source ↦ source.public_id | none ↦ o.fresh_id ]

-- The status by what is paid of the total.
unfoldable pub sale_status : ℕ → ℕ → InvoiceStatus
sale_status amount paid_now =
    if paid_now == amount then paid else if paid_now == 0 then credited else partial_paid

abbrev pub issued_with : ℕ → RequestKey → Invoice → Bool
issued_with company key r = (r.company_id == company) && (r.idempotency_key == key.id)

unfoldable pub sale_invoice : Scope → Occasion → RequestKey → Sale → ℕ → Text → ℕ → Result Invoice
unfolding sale_status
sale_invoice scope o key sale id number paid_now = Pure.◌>>=◌ (decimal (pos paid_now)) λ paid_text.
    Pure.◌>>=◌ (decimal (pos (sale.amount - paid_now))) λ due_text. ok (record {
      id = id;
      company_id = scope.company.id;
      branch_id = sale.quoted.branch_id;
      invoice_number = number;
      invoice_type = sale.quoted.invoice_type;
      customer_id = sale.quoted.customer_id;
      status = sale_status sale.amount paid_now;
      grand_total = sale.quoted.grand_total;
      paid_amount = paid_text;
      balance_due = due_text;
      items = sale.quoted.items;
      source_type = sale.source_type;
      source_id = source_id_of o;
      idempotency_key = key.id;
      request_hash = key.hash;
      draft_payload = none;
    })

-- A payment as it is stored.
abbrev pub stored_payment : Invoice → ℕ → ℕ → Tendered → InvoicePayment
stored_payment invoice branch today t = record {
  id = t.id;
  company_id = invoice.company_id;
  branch_id = branch;
  invoice_id = invoice.id;
  mode_type = t.mode_type;
  amount = t.text;
  is_credit_marker = t.is_credit_marker;
  business_date = today;
}

-- The order that the counter of a cafe closes at once. It has no lines and no subtotal of its own.
abbrev pub counter_order : Scope → ℕ → Option OrderType → Sale → Invoice → ℕ → Order
counter_order scope fresh order_type sale invoice id = record {
  id = id;
  company_id = scope.company.id;
  branch_id = sale.branch.id;
  public_id = fresh;
  table_session_public_id = none;
  table_id = none;
  order_type = or_else order_type counter;
  status = closed;
  subtotal = [];
  estimated_total = sale.quoted.grand_total;
  items = [];
  created_by = none;
  accepted_by = none;
  version = 1;
  billed_invoice_id = some invoice.id;
  counter_items = sale.quoted.items;
}
