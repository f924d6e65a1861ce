-- ===== src/Billing/Bill.antt =====
-- apps/web/src/server/cafe-billing.ts, `finalizeCafeBill`: the orders, the session and the table of a cafe's
-- invoice.
use cafe_retail_software.Cafe.Sessions.{of_table}
use cafe_retail_software.Money.{scaled}
use cafe_retail_software.Database.{Database, required_row}
use cafe_retail_software.Result.{Action, ◌>>=◌, lift, modify, ◌>>◌, pure}
use cafe_retail_software.Security.{Scope}
use cafe_retail_software.Documents.Invoices.{
  SourceType, Invoice, cafe_table_session, cafe_takeaway, retail_sale,
}
use cafe_retail_software.Documents.Cafe.{
  closed, OrderStatus, TableSession, Order, CafeTable, cancelled, session_closed, rejected,
  session_billed, billed,
}
use cafe_retail_software.Prelude.{
  Bool, ℕ, false, ◌==◌, if◌then◌else◌, true, none, ◌&&◌, some, ◌+◌, opt_eq,
}
use cafe_retail_software.Mongo.{Mongo}

-- `["cancelled", "rejected"]` are left alone.
abbrev pub is_live : OrderStatus → Bool
is_live cancelled = false
is_live rejected = false
is_live _ = true

-- The orders that an invoice bills.
pub billed_order : ℕ → Invoice → Order → Bool
billed_order company invoice r =
    (r.company_id == company)
    && elim invoice.source_type [
      | cafe_table_session ↦ opt_eq r.table_session_public_id (some invoice.source_id)
      | cafe_takeaway ↦ r.public_id == invoice.source_id
      | retail_sale ↦ r.public_id == invoice.source_id
    ]
    && is_live r.status

abbrev pub bill_order : Bool → ℕ → Order → Order
bill_order is_closed invoice r = record r {
  status = if is_closed then closed else billed;
  billed_invoice_id = some invoice;
  version = r.version + 1;
}

abbrev pub bill_session : Bool → ℕ → ℕ → TableSession → TableSession
bill_session is_closed invoice user r = record r {
  status = if is_closed then session_closed else session_billed;
  billed_invoice_id = some invoice;
  closed_by = if is_closed then some user else r.closed_by;
  version = r.version + 1;
}

abbrev pub bill_table : Bool → ℕ → CafeTable → CafeTable
bill_table is_closed session r = record r {
  active_session_public_id = if is_closed then none else some session;
  active_session_status = if is_closed then none else some session_billed;
  version = r.version + 1;
}

abbrev pub session_of : ℕ → ℕ → TableSession → Bool
session_of company public_id r = (r.company_id == company) && (r.public_id == public_id)

module _ (m : Mongo) where
  -- The session and the table of an invoice for a session.
  unfoldable pub finalize_source :
      SourceType → Scope → Bool → Invoice → Action (Database m) (Unit {0})
  finalize_source cafe_table_session scope is_closed invoice = do
    row ← required_row m (session_of scope.company.id invoice.source_id) (λ s. s.sessions)
    modify (λ s. record s {
      sessions =
          m.update_one (λ r. r.id == row.id) (bill_session is_closed invoice.id scope.user.id)
            s.sessions;
      tables =
          m.update_one (of_table scope.company.id row.table_id) (bill_table is_closed row.public_id)
            s.tables;
    })
  finalize_source _ scope is_closed invoice = pure tt

  unfoldable pub finalize_cafe_bill : Scope → Invoice → Action (Database m) (Unit {0})
  unfolding billed_order finalize_source
  finalize_cafe_bill scope invoice = do
    balance ← lift (scaled invoice.balance_due)
    let is_closed : Bool = balance == 0
    modify (λ s. record s {
      orders =
          m.update_many (billed_order scope.company.id invoice) (bill_order is_closed invoice.id)
            s.orders;
    })
    finalize_source invoice.source_type scope is_closed invoice
