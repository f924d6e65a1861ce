-- ===== src/Cafe/Sessions.antt =====
-- apps/web/src/server/cafe.ts: table sessions are opened, billed and closed, and tables and menu items
-- changed.
use cafe_retail_software.Database.{next_id, Database, required_row, session_counter}
use cafe_retail_software.Result.{
  Action, ◌>>=◌, ◌>>◌, require_value, ensure, modify, gets, version_conflict, pure,
}
use cafe_retail_software.Security.{Scope, managers, sellers, in_scope, allow}
use cafe_retail_software.Documents.Cafe.{
  CafeTable, TableSession, Order, QrToken, MenuItem, OrderStatus, bill_requested, session_requested,
  session_open, session_cancelled, session_closed,
}
use cafe_retail_software.Closing.{writable_day}
use cafe_retail_software.Cafe.{
  is_closable, kitchen_roles, is_unbilled, eligible, is_unsettled, cafe_only, check_version,
  is_session_open,
}
use cafe_retail_software.Prelude.{
  List, ℕ, Bool, ◌==◌, ◌&&◌, false, none, some, true, if◌then◌else◌, includes, Option, opt_eq, ◌+◌,
  not, map, is_some, ◌||◌, leb, length, every,
}
use cafe_retail_software.Mongo.{Mongo}

abbrev pub table_in_scope : Scope → ℕ → CafeTable → Bool
table_in_scope scope id r = in_scope scope r.company_id r.branch_id && (r.id == id)

abbrev pub active_table : Scope → ℕ → CafeTable → Bool
active_table scope id r = table_in_scope scope id r && r.is_active

abbrev pub session_named : Scope → ℕ → TableSession → Bool
session_named scope public_id r =
    in_scope scope r.company_id r.branch_id && (r.public_id == public_id)

-- The orders of a session that a test takes.
abbrev pub orders_of : ℕ → ℕ → (OrderStatus → Bool) → Order → Bool
orders_of company session p r =
    (r.company_id == company) && opt_eq r.table_session_public_id (some session) && p r.status

-- `{ id: { $in: orders.map((o) => o.id) }, company_id }`
abbrev pub is_among : List Order → ℕ → Order → Bool
is_among orders company r = includes r.id (map (λ o. o.id) orders) && (r.company_id == company)

abbrev pub request_order : Order → Order
request_order r = record r { status = bill_requested; version = r.version + 1 }

abbrev pub request_session : TableSession → TableSession
request_session r = record r { status = session_requested; version = r.version + 1 }

abbrev pub mark_requested : CafeTable → CafeTable
mark_requested r = record r { active_session_status = some session_requested }

-- The session that a table gets.
abbrev pub occupy : ℕ → CafeTable → CafeTable
occupy public_id r = record r {
  active_session_public_id = some public_id;
  active_session_status = some session_open;
  version = r.version + 1;
}

abbrev pub vacate : CafeTable → CafeTable
vacate r = record r {
  active_session_public_id = none;
  active_session_status = none;
  version = r.version + 1;
}

abbrev pub end_session : Bool → ℕ → TableSession → TableSession
end_session cancel user r = record r {
  status = if cancel then session_cancelled else session_closed;
  closed_by = some user;
  version = r.version + 1;
}

abbrev pub retire : CafeTable → CafeTable
retire r = record r { is_active = false; qr_active = false; version = r.version + 1 }

abbrev pub revoke : QrToken → QrToken
revoke r = record r { revoked = true }

abbrev pub of_table : ℕ → ℕ → CafeTable → Bool
of_table company id r = (r.id == id) && (r.company_id == company)

abbrev pub token_of_table : ℕ → ℕ → QrToken → Bool
token_of_table company table r = (r.company_id == company) && (r.table_id == table)

-- The item of the company that the user's branch may change.
abbrev pub own_item : Scope → ℕ → MenuItem → Bool
own_item scope id r =
    (r.company_id == scope.company.id)
    && (r.id == id)
    && (not (is_some scope.user.branch_id)
        || opt_eq r.branch_id scope.user.branch_id
        || not (is_some r.branch_id))

module _ (m : Mongo) where
  unfoldable pub request_session_bill :
      Scope → TableSession → Option ℕ → Action (Database m) TableSession
  unfolding is_unbilled eligible
  request_session_bill scope row expected = do
    check_version row.version expected
    require_value (is_session_open row.status)
    orders ← gets (λ s. m.find (orders_of scope.company.id row.public_id is_unbilled) s.orders)
    require_value (leb 1 (length orders) && every (λ o. eligible o.status) orders)
    modify (λ s. record s {
      sessions = m.update_one (λ r. r.id == row.id) request_session s.sessions;
      tables = m.update_one (of_table scope.company.id row.table_id) mark_requested s.tables;
      orders = m.update_many (is_among orders scope.company.id) request_order s.orders;
    })
    pure (request_session row)

  -- `public_id` is the random identifier.
  unfoldable pub open_session : Scope → ℕ → ℕ → ℕ → Action (Database m) TableSession
  unfolding writable_day next_id sellers
  open_session scope today public_id table_id = do
    cafe_only scope
    allow scope.user sellers
    table ← required_row m (active_table scope table_id) (λ s. s.tables)
    writable_day m scope table.branch_id today
    require_value (not (is_some table.active_session_public_id))
    id ← next_id m session_counter
    let row : TableSession = record {
      id = id;
      company_id = scope.company.id;
      branch_id = table.branch_id;
      table_id = table.id;
      public_id = public_id;
      status = session_open;
      opened_by = scope.user.id;
      closed_by = none;
      billed_invoice_id = none;
      version = 1;
    }
    modify (λ s. record s {
      sessions = m.insert_one row s.sessions;
      tables = m.update_one (λ r. r.id == table.id) (occupy public_id) s.tables;
    })
    pure row

  unfoldable pub close_session :
      Scope → Bool → Option ℕ → TableSession → Action (Database m) TableSession
  unfolding is_closable is_unsettled
  close_session scope cancel expected row = do
    check_version row.version expected
    require_value (is_closable row.status)
    orders ← gets (λ s. m.find (orders_of scope.company.id row.public_id is_unsettled) s.orders)
    require_value (length orders == 0)
    modify (λ s. record s {
      sessions = m.update_one (λ r. r.id == row.id) (end_session cancel scope.user.id) s.sessions;
      tables = m.update_one (of_table scope.company.id row.table_id) vacate s.tables;
    })
    pure (end_session cancel scope.user.id row)

  unfoldable pub set_available : Scope → ℕ → Bool → Option ℕ → Action (Database m) MenuItem
  unfolding kitchen_roles
  set_available scope id available expected = do
    cafe_only scope
    allow scope.user kitchen_roles
    row ← required_row m (own_item scope id) (λ s. s.menu_items)
    ensure (not (is_some expected) || opt_eq (some row.version) expected) version_conflict
    modify (λ s. record s {
      menu_items =
          m.update_one (λ r. r.id == row.id)
            (λ r. record r { available = available; version = r.version + 1 }) s.menu_items;
    })
    pure (record row { available = available; version = row.version + 1 })

  unfoldable pub deactivate_table : Scope → ℕ → Action (Database m) CafeTable
  unfolding managers
  deactivate_table scope id = do
    cafe_only scope
    allow scope.user managers
    row ← required_row m (table_in_scope scope id) (λ s. s.tables)
    require_value (not (is_some row.active_session_public_id))
    modify (λ s. record s {
      tables = m.update_one (λ r. r.id == row.id) retire s.tables;
      qr_tokens = m.update_many (token_of_table scope.company.id row.id) revoke s.qr_tokens;
    })
    pure (record row { is_active = false })

  -- The actions on a session that is named.
  unfoldable pub session_action :
      Bool → Scope → ℕ → Bool → Option ℕ → Action (Database m) TableSession
  unfolding request_session_bill close_session sellers
  session_action is_close scope public_id cancel expected = do
    cafe_only scope
    allow scope.user sellers
    row ← required_row m (session_named scope public_id) (λ s. s.sessions)
    if is_close
        then close_session scope cancel expected row
        else request_session_bill scope row expected
