-- ===== src/Database.antt =====
-- The state of the server: every collection that the modelled handlers use (db.ts, `indexes`), and the
-- counters of `nextId`. The helpers of query.ts.
use cafe_retail_software.Prelude.{
  ℕ, ◌+◌, Bool, some, ◌==◌, if◌then◌else◌, ◌≡◌, true, inl, arith, inr,
}
use cafe_retail_software.Result.{Action, required, not_found, gets, modify, ◌>>=◌, ◌>>◌, ok}
use cafe_retail_software.Mongo.{Mongo, find_one-cases}
use cafe_retail_software.Documents.{
  Group, Company, Branch, Product, Supplier, Inventory, Movement, Customer, LedgerEntry,
  PaymentMode, CustomerPayment, InvoicePayment, Closure, AuditEvent, Reconciliation,
}
use cafe_retail_software.Documents.Purchases.{PurchaseOrder}
use cafe_retail_software.Documents.Cafe.{Order, TableSession, CafeTable, QrToken, MenuItem}
use cafe_retail_software.Documents.Invoices.{Profile, TaxRate, Invoice, Sequence}
use cafe_retail_software.Documents.Operations.{OperationKey}

pub record Database (m : Mongo) : Type 0 where
  pub groups : m.Collection Group
  pub companies : m.Collection Company
  pub branches : m.Collection Branch
  pub products : m.Collection Product
  pub suppliers : m.Collection Supplier
  pub inventory : m.Collection Inventory
  pub movements : m.Collection Movement
  pub customers : m.Collection Customer
  pub ledger : m.Collection LedgerEntry
  pub payment_modes : m.Collection PaymentMode
  pub customer_payments : m.Collection CustomerPayment
  pub invoice_payments : m.Collection InvoicePayment
  pub closures : m.Collection Closure
  pub audit_events : m.Collection AuditEvent
  pub reconciliations : m.Collection Reconciliation
  pub purchase_orders : m.Collection PurchaseOrder
  pub orders : m.Collection Order
  pub sessions : m.Collection TableSession
  pub tables : m.Collection CafeTable
  pub qr_tokens : m.Collection QrToken
  pub menu_items : m.Collection MenuItem
  pub profiles : m.Collection Profile
  pub tax_rates : m.Collection TaxRate
  pub invoices : m.Collection Invoice
  pub sequences : m.Collection Sequence
  pub operation_keys : m.Collection OperationKey
  -- The value of each counter, by the number of its collection.
  pub counters : ℕ → ℕ

-- The numbers of the collections that count.
abbrev pub inventory_counter : ℕ
inventory_counter = 0

abbrev pub movement_counter : ℕ
movement_counter = 1

abbrev pub ledger_counter : ℕ
ledger_counter = 2

abbrev pub customer_payment_counter : ℕ
customer_payment_counter = 3

abbrev pub closure_counter : ℕ
closure_counter = 4

abbrev pub audit_counter : ℕ
audit_counter = 5

abbrev pub purchase_counter : ℕ
purchase_counter = 6

abbrev pub order_counter : ℕ
order_counter = 7

abbrev pub session_counter : ℕ
session_counter = 8

abbrev pub invoice_counter : ℕ
invoice_counter = 9

abbrev pub invoice_payment_counter : ℕ
invoice_payment_counter = 10

abbrev pub reconciliation_counter : ℕ
reconciliation_counter = 11

abbrev pub count_up : ℕ → (ℕ → ℕ) → ℕ → ℕ
count_up k counters j = if j == k then counters j + 1 else counters j

module _ (m : Mongo) where
  -- The next identifier of a collection: its counter, counted up.
  unfoldable pub next_id : ℕ → Action (Database m) ℕ
  next_id k = do
    modify (λ s. record s { counters = count_up k s.counters })
    gets (λ s. s.counters k)

  -- The document that a filter takes, or an error.
  abbrev pub required_row :
      {R : Type 0} → (R → Bool) → (Database m → m.Collection R) → Action (Database m) R
  required_row p coll s = required (m.find_one p (coll s)) not_found s

  -- What a handler requires passes the filter, and nothing is written.
  pub required_row-holds :
      {R : Type 0} (p : R → Bool) (coll : Database m → m.Collection R) (s : Database m) {a : R}
      {t : Database m}
      → required_row p coll s ≡ ok (a, t)
      → (p a ≡ true) × (m.find_one p (coll s) ≡ some a) × (t ≡ s)
  required_row-holds p coll s h = elim (find_one-cases m p (coll s)) [
    | inl missing ↦ ground arith
    | inr (b, one, passes) ↦ ground arith
  ]

  pub data Found {R B : Type 0} (p : R → Bool) (c : m.Collection R) (f : R → Action (Database m) B)
      (s : Database m) (b : B) (t : Database m) : Type 0 where
    found_row :
        (a : R) → p a ≡ true → m.find_one p c ≡ some a → f a s ≡ ok (b, t) → Found p c f s b t

  pub required_row->>=-eq-ok :
      {R B : Type 0} (p : R → Bool) (coll : Database m → m.Collection R)
      (f : R → Action (Database m) B) (s : Database m) {b : B} {t : Database m}
      → (required_row p coll >>= f) s ≡ ok (b, t)
      → Found p (coll s) f s b t
  required_row->>=-eq-ok p coll f s h = elim (find_one-cases m p (coll s)) [
    | inl missing ↦ ground arith
    | inr (a, one, passes) ↦ found_row a passes one (ground arith)
  ]
