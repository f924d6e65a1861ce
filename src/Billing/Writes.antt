-- ===== src/Billing/Writes.antt =====
-- What the steps of a checkout leave alone (billing.ts, cafe-billing.ts).
use cafe_retail_software.Billing.Reading.{required_row-Keeps}
use cafe_retail_software.Result.{modify}
use cafe_retail_software.Ledger.{post_ledger, write_balance, insert_entry, Posting}
use cafe_retail_software.Billing.Collect.{finalize_if}
use cafe_retail_software.Billing.Bill.{finalize_source, finalize_cafe_bill}
use cafe_retail_software.Billing.Requested.{take_stock, take_one, Requests}
use cafe_retail_software.Documents.Cafe.{Order, TableSession, CafeTable}
use cafe_retail_software.Billing.{PaymentInput}
use cafe_retail_software.Prelude.Int.{ℤ}
use cafe_retail_software.Documents.Invoices.{
  InvoiceType, Sequence, Invoice, SourceType, cafe_table_session, cafe_takeaway, retail_sale,
}
use cafe_retail_software.Documents.{
  MovementType, Movement, Customer, Inventory, InvoicePayment, LedgerEntry,
}
use cafe_retail_software.Security.{Scope}
use cafe_retail_software.Prelude.{
  ℕ, arith, ◌≡◌, Option, Bool, List, some, none, ◌∷◌, [], ◌&&◌, not, true, is_some, false, suc,
  zero,
}
use cafe_retail_software.Billing.Tender.{tender, tender_one, Tendered}
use cafe_retail_software.Inventory.{record_movement}
use cafe_retail_software.Billing.Checkout.{
  pay_sale, insert_order, invoice_id, post_sale, insert_payments, order_if, post_paid,
  store_invoice,
}
use cafe_retail_software.Billing.Sale.{Occasion, CheckoutBody, Sale}
use cafe_retail_software.Billing.Numbers.{next_number}
use cafe_retail_software.Database.{Database, next_id, count_up, invoice_counter}
use cafe_retail_software.Result.Keeps.{Keeps, Keeps->>=, Keeps-pure, Keeps-modify, reading}
use cafe_retail_software.Mongo.{Mongo}

module _ (m : Mongo) {X : Type 0} (f : Database m → X) where
  -- A part of the state in which no counter is.
  abbrev pub SkipsCounters : Type 0
  SkipsCounters = (s : Database m) (c : ℕ → ℕ) → f (record s { counters = c }) ≡ f s

  pub next_id-Keeps : (k : ℕ) → SkipsCounters → Keeps f (next_id m k)
  unfolding next_id
  next_id-Keeps k counts = record { kept = λ s h. ground (arith, counts s (count_up k s.counters)) }

  tender_one-Keeps :
      (scope : Scope) (has_customer : Bool) (input : PaymentInput)
      → SkipsCounters
      → Keeps f (tender_one m scope has_customer input)
  unfolding tender_one
  tender_one-Keeps scope has_customer input counts = search (reading, next_id-Keeps) depth 30

  pub tender-Keeps :
      (scope : Scope) (has_customer : Bool) (inputs : List PaymentInput)
      → SkipsCounters
      → Keeps f (tender m scope has_customer inputs)
  unfolding tender
  tender-Keeps scope has_customer [] counts = search reading
  tender-Keeps scope has_customer (input ∷ inputs) counts =
      Keeps->>= f (tender_one m scope has_customer input) _
        (tender_one-Keeps scope has_customer input counts)
        λ one.
          Keeps->>= f (tender m scope has_customer inputs) _
            (tender-Keeps scope has_customer inputs counts) λ rest. Keeps-pure f _

  pub pay_sale-Keeps :
      (scope : Scope) (at_cafe : Bool) (body : CheckoutBody) (sale : Sale)
      → SkipsCounters
      → Keeps f (pay_sale m scope at_cafe body sale)
  unfolding pay_sale
  pay_sale-Keeps scope at_cafe body sale counts = search (reading, tender-Keeps) depth 20

  pub invoice_id-Keeps : (draft : Option ℕ) → SkipsCounters → Keeps f (invoice_id m draft)
  unfolding invoice_id
  invoice_id-Keeps none counts = next_id-Keeps invoice_counter counts
  invoice_id-Keeps (some id) counts = Keeps-pure f id

  pub next_number-Keeps :
      (company branch : ℕ) (kind : InvoiceType)
      → ((s : Database m) (c : m.Collection Sequence) → f (record s { sequences = c }) ≡ f s)
      → Keeps f (next_number m company branch kind)
  unfolding next_number
  next_number-Keeps company branch kind blind = search (reading, Keeps-modify) depth 20

  order_if-Keeps :
      (asked : Bool) (scope : Scope) (o : Occasion) (body : CheckoutBody) (sale : Sale)
      (invoice : Invoice)
      → SkipsCounters
      → ((s : Database m) (c : m.Collection Order) → f (record s { orders = c }) ≡ f s)
      → Keeps f (order_if m asked scope o body sale invoice)
  unfolding order_if
  order_if-Keeps true scope o body sale invoice counts blind =
      search (reading, Keeps-modify, next_id-Keeps)
  order_if-Keeps false scope o body sale invoice counts blind = Keeps-pure f tt

  pub insert_order-Keeps :
      (scope : Scope) (o : Occasion) (body : CheckoutBody) (sale : Sale) (invoice : Invoice)
      → SkipsCounters
      → ((s : Database m) (c : m.Collection Order) → f (record s { orders = c }) ≡ f s)
      → Keeps f (insert_order m scope o body sale invoice)
  unfolding insert_order
  insert_order-Keeps scope o body sale invoice counts blind =
      order_if-Keeps (o.at_cafe && not (is_some o.source)) scope o body sale invoice counts blind

  pub record_movement-Keeps :
      (kind : MovementType) (company branch product : ℕ) (change : ℤ) (reference : Option ℕ)
      (user : ℕ)
      → SkipsCounters
      → ((s : Database m) (c : m.Collection Movement) → f (record s { movements = c }) ≡ f s)
      → Keeps f (record_movement m kind company branch product change reference user)
  unfolding record_movement
  record_movement-Keeps kind company branch product change reference user counts blind =
      search (reading, Keeps-modify, next_id-Keeps) depth 20

  take_one-Keeps :
      (scope : Scope) (branch invoice product quantity : ℕ)
      → SkipsCounters
      → ((s : Database m) (c : m.Collection Movement) → f (record s { movements = c }) ≡ f s)
      → ((s : Database m) (c : m.Collection Inventory) → f (record s { inventory = c }) ≡ f s)
      → Keeps f (take_one m scope branch invoice product quantity)
  unfolding take_one
  take_one-Keeps scope branch invoice product quantity counts moves blind =
      search (reading, Keeps-modify, record_movement-Keeps) depth 30

  pub take_stock-Keeps :
      (scope : Scope) (branch invoice : ℕ) (requests : Requests)
      → SkipsCounters
      → ((s : Database m) (c : m.Collection Movement) → f (record s { movements = c }) ≡ f s)
      → ((s : Database m) (c : m.Collection Inventory) → f (record s { inventory = c }) ≡ f s)
      → Keeps f (take_stock m scope branch invoice requests)
  unfolding take_stock
  take_stock-Keeps scope branch invoice [] counts moves blind = Keeps-pure f tt
  take_stock-Keeps scope branch invoice ((product, quantity) ∷ rest) counts moves blind =
      Keeps->>= f (take_one m scope branch invoice product quantity) _
        (take_one-Keeps scope branch invoice product quantity counts moves blind)
        λ done. take_stock-Keeps scope branch invoice rest counts moves blind

  pub post_ledger-Keeps :
      (scope : Scope) (customer : ℕ) (p : Posting)
      → SkipsCounters
      → ((s : Database m) (c : m.Collection Customer) → f (record s { customers = c }) ≡ f s)
      → ((s : Database m) (c : m.Collection LedgerEntry) → f (record s { ledger = c }) ≡ f s)
      → Keeps f (post_ledger m scope customer p)
  unfolding post_ledger write_balance insert_entry
  post_ledger-Keeps scope customer p counts people rows =
      search (reading, Keeps-modify, next_id-Keeps, required_row-Keeps) depth 30

  post_paid-Keeps :
      (scope : Scope) (customer amount reference branch : ℕ)
      → SkipsCounters
      → ((s : Database m) (c : m.Collection Customer) → f (record s { customers = c }) ≡ f s)
      → ((s : Database m) (c : m.Collection LedgerEntry) → f (record s { ledger = c }) ≡ f s)
      → Keeps f (post_paid m scope customer amount reference branch)
  unfolding post_paid
  post_paid-Keeps scope customer zero reference branch counts people rows = Keeps-pure f tt
  post_paid-Keeps scope customer (suc n) reference branch counts people rows =
      search (reading, post_ledger-Keeps)

  pub post_sale-Keeps :
      (scope : Scope) (customer : Option Customer) (amount paid_now reference branch : ℕ)
      → SkipsCounters
      → ((s : Database m) (c : m.Collection Customer) → f (record s { customers = c }) ≡ f s)
      → ((s : Database m) (c : m.Collection LedgerEntry) → f (record s { ledger = c }) ≡ f s)
      → Keeps f (post_sale m scope customer amount paid_now reference branch)
  unfolding post_sale
  post_sale-Keeps scope none amount paid_now reference branch counts people rows = Keeps-pure f tt
  post_sale-Keeps scope (some c) amount paid_now reference branch counts people rows =
      search (reading, post_ledger-Keeps, post_paid-Keeps)

  pub store_invoice-Keeps :
      (draft : Option ℕ) (invoice : Invoice)
      → ((s : Database m) (c : m.Collection Invoice) → f (record s { invoices = c }) ≡ f s)
      → Keeps f (store_invoice m draft invoice)
  unfolding store_invoice
  store_invoice-Keeps none invoice blind = Keeps-modify f _ (λ s. blind s _)
  store_invoice-Keeps (some id) invoice blind = Keeps-modify f _ (λ s. blind s _)

  pub insert_payments-Keeps :
      (invoice : Invoice) (branch today : ℕ) (tendered : List Tendered)
      → ((s : Database m) (c : m.Collection InvoicePayment)
          → f (record s { invoice_payments = c }) ≡ f s)
      → Keeps f (insert_payments m invoice branch today tendered)
  unfolding insert_payments
  insert_payments-Keeps invoice branch today [] blind = Keeps-pure f tt
  insert_payments-Keeps invoice branch today (t ∷ ts) blind =
      Keeps->>= f (modify _) _ (Keeps-modify f _ (λ s. blind s _))
        λ done. insert_payments-Keeps invoice branch today ts blind

  finalize_source-Keeps :
      (kind : SourceType) (scope : Scope) (is_closed : Bool) (invoice : Invoice)
      → ((s : Database m) (c : m.Collection TableSession) (d : m.Collection CafeTable)
          → f (record s { sessions = c; tables = d }) ≡ f s)
      → Keeps f (finalize_source m kind scope is_closed invoice)
  unfolding finalize_source
  finalize_source-Keeps cafe_table_session scope is_closed invoice seats =
      search (reading, Keeps-modify, required_row-Keeps)
  finalize_source-Keeps cafe_takeaway scope is_closed invoice seats = Keeps-pure f tt
  finalize_source-Keeps retail_sale scope is_closed invoice seats = Keeps-pure f tt

  pub finalize_if-Keeps :
      (asked : Bool) (scope : Scope) (invoice : Invoice)
      → ((s : Database m) (c : m.Collection Order) → f (record s { orders = c }) ≡ f s)
      → ((s : Database m) (c : m.Collection TableSession) (d : m.Collection CafeTable)
          → f (record s { sessions = c; tables = d }) ≡ f s)
      → Keeps f (finalize_if m asked scope invoice)
  unfolding finalize_if finalize_cafe_bill
  finalize_if-Keeps true scope invoice served seats =
      search (reading, Keeps-modify, finalize_source-Keeps) depth 20
  finalize_if-Keeps false scope invoice served seats = Keeps-pure f tt
