-- ===== src/Billing/Checkout.antt =====
-- apps/web/src/server/billing.ts, `checkout`: an invoice is issued, with its payments, stock, number and
-- postings, in one transaction.
use cafe_retail_software.Billing.Sale.{
  stored_payment, CheckoutBody, Occasion, sale_invoice, issued_with, Sale, working_cart,
  counter_order, type_of_sale,
}
use cafe_retail_software.Closing.{touch_branch, shut_day}
use cafe_retail_software.Billing.Collect.{finalize_if}
use cafe_retail_software.Money.{scaled}
use cafe_retail_software.Billing.Numbers.{next_number}
use cafe_retail_software.Replay.{RequestKey}
use cafe_retail_software.Database.{next_id, Database, invoice_counter, order_counter}
use cafe_retail_software.Billing.Requested.{requested, take_stock}
use cafe_retail_software.Billing.Quote.{quote, quote_customer}
use cafe_retail_software.Billing.Tender.{
  raw_payments, enough_payments, Tendered, tender, may_owe, paid_sum,
}
use cafe_retail_software.Billing.Sources.{load_cafe_bill, Loaded, BillSource}
use cafe_retail_software.Security.{Scope, sellers, authorized_branch, allow}
use cafe_retail_software.Ledger.{post_ledger}
use cafe_retail_software.Documents.Invoices.{QuoteBody}
use cafe_retail_software.Result.{
  Action, pure, require_value, gets, ensure, required, lift, modify, validation_error, day_closed,
  idempotency_conflict, not_found, ◌>>=◌, ◌>>◌,
}
use cafe_retail_software.Prelude.{
  none, some, true, false, ℕ, Bool, Option, List, or_else, [], leb, suc, ◌∷◌, ◌&&◌, ◌==◌, zero, not,
  is_some, ◌||◌, opt_eq,
}
use cafe_retail_software.Documents.Invoices.{Invoice}
use cafe_retail_software.Documents.{Customer, invoice_entry, payment_entry}
use cafe_retail_software.Billing.{is_draft, invoice_of, invoice_in_scope}
use cafe_retail_software.Mongo.{Mongo}

module _ (m : Mongo) where
  unfoldable pub require_draft : Scope → Option ℕ → Action (Database m) (Unit {0})
  require_draft scope none = pure tt
  require_draft scope (some id) = do
    found ← gets (λ s. m.find_one (invoice_in_scope scope id) s.invoices)
    draft ← required found validation_error
    require_value (is_draft draft.status)

  unfoldable pub load_source : Scope → ℕ → Option BillSource → Action (Database m) (Option Loaded)
  unfolding load_cafe_bill
  load_source scope today none = pure none
  load_source scope today (some source) = do
    r ← load_cafe_bill m scope today source
    pure (some r.0)

  -- The quote, the branch with its day open, the customer, and a total that is positive.
  unfoldable pub price_sale : Scope → Occasion → CheckoutBody → Action (Database m) Sale
  unfolding load_source quote authorized_branch quote_customer
  price_sale scope o body = do
    loaded ← load_source scope o.today o.source
    let cart : QuoteBody = working_cart body.cart loaded
    calculated ← quote m scope o.today o.at_cafe cart
    branch ← authorized_branch m scope cart.branch_id
    touch_branch m branch.id
    shut ← gets (λ s.
        m.find_one (shut_day m scope.company.id branch.id (or_else cart.invoice_day o.today))
          s.closures)
    ensure (not (is_some shut)) day_closed
    customer ← quote_customer m scope body.cart.customer_id
    amount ← lift (scaled calculated.grand_total)
    require_value (leb 1 amount)
    pure (record {
      quoted = calculated;
      branch = branch;
      customer = customer;
      amount = amount;
      source_type = type_of_sale o.at_cafe loaded;
    })

  unfoldable pub pay_sale : Scope → Bool → CheckoutBody → Sale → Action (Database m) (List Tendered)
  unfolding raw_payments enough_payments tender may_owe
  pay_sale scope at_cafe body sale = do
    inputs ←
        required
          (raw_payments at_cafe body.payments body.payment_mode_id body.reference_number
            sale.quoted.grand_total)
          validation_error
    require_value (enough_payments (is_some sale.customer) inputs)
    tendered ← tender m scope (is_some sale.customer) inputs
    lift (may_owe sale.customer sale.amount (paid_sum tendered))
    pure tendered

  unfoldable pub invoice_id : Option ℕ → Action (Database m) ℕ
  unfolding next_id
  invoice_id none = next_id m invoice_counter
  invoice_id (some id) = pure id

  unfoldable pub order_if :
      Bool → Scope → Occasion → CheckoutBody → Sale → Invoice → Action (Database m) (Unit {0})
  unfolding next_id
  order_if true scope o body sale invoice = do
    id ← next_id m order_counter
    modify (λ s. record s {
      orders =
          m.insert_one (counter_order scope o.fresh_id body.order_type sale invoice id) s.orders;
    })
  order_if false scope o body sale invoice = pure tt

  -- A sale at the counter of a cafe gets an order.
  unfoldable pub insert_order :
      Scope → Occasion → CheckoutBody → Sale → Invoice → Action (Database m) (Unit {0})
  unfolding order_if
  insert_order scope o body sale invoice =
      order_if (o.at_cafe && not (is_some o.source)) scope o body sale invoice

  -- A draft is replaced, any other invoice is inserted.
  unfoldable pub store_invoice : Option ℕ → Invoice → Action (Database m) (Unit {0})
  store_invoice none invoice = modify (λ s. record s { invoices = m.insert_one invoice s.invoices })
  store_invoice (some id) invoice = modify (λ s. record s {
    invoices = m.update_one (invoice_of id invoice.company_id) (λ r. invoice) s.invoices;
  })

  -- The customer is debited with the total and credited with what is paid.
  unfoldable pub post_paid : Scope → ℕ → ℕ → ℕ → ℕ → Action (Database m) (Unit {0})
  unfolding post_ledger
  post_paid scope customer zero reference branch = pure tt
  post_paid scope customer (suc n) reference branch = do
    entry ← post_ledger m scope customer (record {
      debit = 0;
      credit = suc n;
      entry_type = payment_entry;
      reference_id = reference;
      branch_id = branch;
    })
    pure tt

  unfoldable pub post_sale :
      Scope → Option Customer → ℕ → ℕ → ℕ → ℕ → Action (Database m) (Unit {0})
  unfolding post_ledger post_paid
  post_sale scope none amount paid_now reference branch = pure tt
  post_sale scope (some customer) amount paid_now reference branch = do
    entry ← post_ledger m scope customer.id (record {
      debit = amount;
      credit = 0;
      entry_type = invoice_entry;
      reference_id = reference;
      branch_id = branch;
    })
    post_paid scope customer.id paid_now reference branch

  unfoldable pub insert_payments : Invoice → ℕ → ℕ → List Tendered → Action (Database m) (Unit {0})
  insert_payments invoice branch today [] = pure tt
  insert_payments invoice branch today (t ∷ ts) = do
    modify (λ s. record s {
      invoice_payments = m.insert_one (stored_payment invoice branch today t) s.invoice_payments;
    })
    insert_payments invoice branch today ts

  -- What the sale writes, once its payments are agreed.
  unfoldable pub write_sale :
      Scope
      → Occasion
      → RequestKey
      → CheckoutBody
      → Sale
      → List Tendered
      → Action (Database m) Invoice
  unfolding requested invoice_id take_stock next_number sale_invoice insert_order store_invoice
      post_sale insert_payments finalize_if
  write_sale scope o key body sale tendered = do
    requests ← lift (requested sale.quoted.items)
    id ← invoice_id o.draft_id
    take_stock m scope sale.branch.id id requests
    number ← next_number m scope.company.id sale.branch.id sale.quoted.invoice_type
    invoice ← lift (sale_invoice scope o key sale id number (paid_sum tendered))
    insert_order scope o body sale invoice
    store_invoice o.draft_id invoice
    post_sale scope sale.customer sale.amount (paid_sum tendered) id sale.branch.id
    insert_payments invoice sale.branch.id o.today tendered
    finalize_if m (is_some o.source) scope invoice
    pure invoice

  unfoldable pub issue : Scope → Occasion → RequestKey → CheckoutBody → Action (Database m) Invoice
  unfolding require_draft price_sale pay_sale write_sale
  issue scope o key body = do
    require_draft scope o.draft_id
    sale ← price_sale scope o body
    tendered ← pay_sale scope o.at_cafe body sale
    write_sale scope o key body sale tendered

  -- An invoice with the request's key is returned again, if its body is the same.
  unfoldable pub issue_once :
      Scope
      → Occasion
      → RequestKey
      → CheckoutBody
      → Option Invoice
      → Action (Database m) (Invoice × Bool)
  unfolding issue
  issue_once scope o key body (some old) = do
    ensure (old.request_hash == key.hash) idempotency_conflict
    ensure (not (is_some scope.user.branch_id) || opt_eq scope.user.branch_id (some old.branch_id))
        not_found
    pure (old, true)
  issue_once scope o key body none = do invoice ← issue scope o key body; pure (invoice, false)

  unfoldable pub checkout :
      Scope → Occasion → RequestKey → CheckoutBody → Action (Database m) (Invoice × Bool)
  unfolding sellers issue_once
  checkout scope o key body = do
    require_value (leb 8 key.length && leb key.length 150)
    allow scope.user sellers
    old ← gets (λ s. m.find_one (issued_with scope.company.id key) s.invoices)
    issue_once scope o key body old
