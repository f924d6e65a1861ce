-- ===== src/Billing/Sources.antt =====
-- apps/web/src/server/cafe-billing.ts, `loadCafeBill`: what an order, or a table session with its orders, is
-- billed for.
use cafe_retail_software.Billing.Bill.{is_live}
use cafe_retail_software.Cafe.Sessions.{orders_of}
use cafe_retail_software.Ledger.{zero_text}
use cafe_retail_software.Database.{Database, required_row}
use cafe_retail_software.Money.{print}
use cafe_retail_software.Cafe.{eligible, check_version, cafe_only}
use cafe_retail_software.Billing.Quote.{quote}
use cafe_retail_software.Documents.Invoices.{SourceType, cafe_table_session, cafe_takeaway}
use cafe_retail_software.Prelude.{
  List, ℕ, Bool, false, Option, ◌∷◌, none, some, true, ◌&&◌, ◌++◌, [], ◌==◌, not, is_some, leb,
  length, every, map,
}
use cafe_retail_software.Billing.Cart.{Quote}
use cafe_retail_software.Documents.Invoices.{CartItem, QuoteBody, CartEntry}
use cafe_retail_software.Security.{Scope, sellers, in_scope, allow}
use cafe_retail_software.Result.{Action, pure, require_value, gets, ◌>>=◌, ◌>>◌}
use cafe_retail_software.Documents.Cafe.{
  OrderItem, Order, OrderStatus, SessionStatus, TableSession, session_closed, session_cancelled,
  session_billed, closed, cancelled, rejected, billed,
}
use cafe_retail_software.Mongo.{Mongo}

pub data BillKind : Type 0 where
  order_bill session_bill : BillKind

-- A source, with the version that the request expects, if it names one.
pub record BillSource : Type 0 where
  pub kind : BillKind
  pub public_id : ℕ
  pub expected_version : Option ℕ

-- Not in `["closed", "cancelled", "rejected", "billed"]`.
pub can_bill : OrderStatus → Bool
can_bill closed = false
can_bill cancelled = false
can_bill rejected = false
can_bill billed = false
can_bill _ = true

pub can_bill_session : SessionStatus → Bool
can_bill_session session_closed = false
can_bill_session session_cancelled = false
can_bill_session session_billed = false
can_bill_session _ = true

-- An accepted or finished order that is not billed.
abbrev pub is_billable : Order → Bool
is_billable r = eligible r.status && not (is_some r.billed_invoice_id)

-- The line of an order as an item of a cart: its price is the order's, and it has no rates of its own.
abbrev pub snapshot_of : OrderItem → CartItem
snapshot_of item = record {
  selling_price = item.unit_price;
  product_id = item.product_id;
  linked = record {
    gst_rate_id = none;
    cess_rate_percent = none;
    unit_cost = none;
    is_service = false;
  };
}

unfoldable pub billed_entry : OrderItem → CartEntry
billed_entry item = record {
  menu_item_public_id = some item.menu_item_public_id;
  product_id = none;
  line = record { quantity = print item.quantity; unit_price = none; discount = some zero_text };
  snapshot = some (snapshot_of item);
}

abbrev pub billed_items : List Order → List OrderItem
billed_items [] = []
billed_items (r ∷ rs) = r.items ++ billed_items rs

-- What a bill is made of: the branch, and the lines of the cart.
pub record Loaded : Type 0 where
  pub branch_id : ℕ
  pub entries : List CartEntry
  pub source_type : SourceType

abbrev pub loaded_body : Loaded → QuoteBody
loaded_body l = record {
  branch_id = l.branch_id;
  invoice_day = none;
  odd_date = false;
  invoice_type = none;
  odd_type = false;
  customer_id = none;
  place_of_supply_state_code = none;
  items = l.entries;
}

module _ (m : Mongo) where
  abbrev pub expect : ℕ → Option ℕ → Action (Database m) (Unit {0})
  expect current none = pure tt
  expect current (some version) = check_version current (some version)

  abbrev pub order_in_scope : Scope → ℕ → Order → Bool
  order_in_scope scope id r = in_scope scope r.company_id r.branch_id && (r.public_id == id)

  abbrev pub session_in_scope : Scope → ℕ → TableSession → Bool
  session_in_scope scope id r = in_scope scope r.company_id r.branch_id && (r.public_id == id)

  -- The branch and the orders of a source.
  unfoldable pub source_orders :
      BillKind → Scope → ℕ → Option ℕ → Action (Database m) (ℕ × List Order)
  unfolding can_bill can_bill_session
  source_orders session_bill scope id expected = do
    row ← required_row m (session_in_scope scope id) (λ s. s.sessions)
    expect row.version expected
    require_value (can_bill_session row.status)
    orders ← gets (λ s. m.find (orders_of scope.company.id row.public_id is_live) s.orders)
    pure (row.branch_id, orders)
  source_orders order_bill scope id expected = do
    row ← required_row m (order_in_scope scope id) (λ s. s.orders)
    expect row.version expected
    require_value (can_bill row.status)
    require_value (not (is_some row.table_session_public_id))
    pure (row.branch_id, row ∷ [])

  abbrev pub bill_type : BillKind → SourceType
  bill_type session_bill = cafe_table_session
  bill_type order_bill = cafe_takeaway

  -- The quote of the bill is made once here, and what is wrong with it refuses the bill.
  unfoldable pub load_cafe_bill : Scope → ℕ → BillSource → Action (Database m) (Loaded × Quote)
  unfolding sellers source_orders billed_entry quote
  load_cafe_bill scope today source = do
    cafe_only scope
    allow scope.user sellers
    (branch, orders) ← source_orders source.kind scope source.public_id source.expected_version
    require_value (leb 1 (length orders) && every is_billable orders)
    let loaded : Loaded = record {
      branch_id = branch;
      entries = map billed_entry (billed_items orders);
      source_type = bill_type source.kind;
    }
    calculated ← quote m scope today true (loaded_body loaded)
    pure (loaded, calculated)
