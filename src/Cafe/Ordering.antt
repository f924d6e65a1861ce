-- ===== src/Cafe/Ordering.antt =====
-- apps/web/src/server/cafe.ts, `createOrder`.
use cafe_retail_software.Prelude.Int.{pos}
use cafe_retail_software.Cafe.{is_session_open, cafe_only}
use cafe_retail_software.Database.{Database, next_id, required_row, order_counter}
use cafe_retail_software.Money.{Text, scaled, decimal}
use cafe_retail_software.Closing.{writable_day}
use cafe_retail_software.Security.{Scope, authorized_branch, in_scope}
use cafe_retail_software.Result.{
  Result, Action, pure, err, ◌>>=◌, modify, validation_error, ◌>>◌, require_value, lift, required,
  ok,
}
use cafe_retail_software.Prelude.{
  Option, ℕ, ◌+◌, some, Bool, List, none, true, ◌==◌, false, or_else, ◌&&◌, ◌∷◌, opt_eq,
  if◌then◌else◌, ◌||◌, leb, not, is_some, length, ◌*◌, [],
}
use cafe_retail_software.Documents.Cafe.{
  TableSession, OrderType, MenuItem, Order, OrderItem, dine_in, placed,
}
use cafe_retail_software.Mongo.{Mongo}

-- One entry of `body.items`: a quantity that is no whole number is `none`, and the keys other than those of
-- a line are counted.
pub record OrderLine : Type 0 where
  pub menu_item_public_id : ℕ
  pub quantity : Option ℕ
  pub notes : Text
  pub other_keys : ℕ

-- The request's body: an order type that is none of the three is `none`.
pub record OrderBody : Type 0 where
  pub table_session_public_id : Option ℕ
  pub order_type : Option OrderType
  pub branch_id : Option ℕ
  pub items : List OrderLine
  pub customer_notes : Text

abbrev pub is_dine_in : Option OrderType → Bool
is_dine_in (some dine_in) = true
is_dine_in _ = false

abbrev pub open_session_of : Scope → ℕ → TableSession → Bool
open_session_of scope public_id r =
    in_scope scope r.company_id r.branch_id
    && (r.public_id == public_id)
    && is_session_open r.status

-- An item on the menu of a branch, or of all branches.
abbrev pub on_menu : ℕ → ℕ → ℕ → MenuItem → Bool
on_menu company branch public_id r =
    (r.company_id == company)
    && (r.public_id == public_id)
    && r.is_active
    && r.available
    && (opt_eq r.branch_id (some branch) || not (is_some r.branch_id))

-- The first identifier that is there.
pub first_id : Option ℕ → Option ℕ → Option ℕ → ℕ
first_id (some a) b c = a
first_id none (some b) c = b
first_id none none c = or_else c 0

abbrev pub session_branch : Option TableSession → Option ℕ
session_branch none = none
session_branch (some t) = some t.branch_id

abbrev pub session_id : Option TableSession → Option ℕ
session_id none = none
session_id (some t) = some t.public_id

abbrev pub session_table : Option TableSession → Option ℕ
session_table none = none
session_table (some t) = some t.table_id

-- A line's quantity, an integer from 1 to 20.
unfoldable pub ordered_quantity : OrderLine → Result ℕ
ordered_quantity input = elim input.quantity [
  | none ↦ err validation_error
  | some n ↦ if leb 1 n && leb n 20 then ok n else err validation_error
]

abbrev pub touch_session : TableSession → TableSession
touch_session t = record t { version = t.version + 1 }

module _ (m : Mongo) where
  unfoldable pub ordered_item : ℕ → ℕ → OrderLine → Action (Database m) MenuItem
  ordered_item company branch input =
      required_row m (on_menu company branch input.menu_item_public_id) (λ s. s.menu_items)

  -- The lines of an order, and their total in hundredths, from a number on.
  unfoldable pub order_items : ℕ → ℕ → ℕ → List OrderLine → Action (Database m) (ℕ × List OrderItem)
  unfolding ordered_quantity ordered_item
  order_items company branch next [] = pure (0, [])
  order_items company branch next (input ∷ inputs) = do
    require_value (input.other_keys == 0)
    quantity ← lift (ordered_quantity input)
    require_value (leb (length input.notes) 300)
    item ← ordered_item company branch input
    price ← lift (scaled item.selling_price)
    line_total ← lift (decimal (pos (price * quantity)))
    rest ← order_items company branch (next + 1) inputs
    let line : OrderItem = record {
      id = next;
      menu_item_public_id = item.public_id;
      menu_item_id = item.id;
      product_id = item.product_id;
      quantity = quantity;
      unit_price = item.selling_price;
      line_total = line_total;
      status = placed;
    }
    pure (price * quantity + rest.0, line ∷ rest.1)

  -- The open session that the body names, if it names one.
  unfoldable pub named_session : Scope → Option ℕ → Action (Database m) (Option TableSession)
  named_session scope none = pure none
  named_session scope (some public_id) = do
    row ← required_row m (open_session_of scope public_id) (λ s. s.sessions)
    pure (some row)

  unfoldable pub count_session : Option TableSession → Action (Database m) (Unit {0})
  count_session none = pure tt
  count_session (some t) =
      modify
        (λ s. record s { sessions = m.update_one (λ r. r.id == t.id) touch_session s.sessions })

  -- The order gets its identifier and is inserted, and its session's version is counted up.
  unfoldable pub book_order : Option TableSession → Order → Action (Database m) Order
  unfolding next_id count_session
  book_order table values = do
    id ← next_id m order_counter
    let order : Order = record values { id = id }
    modify (λ s. record s { orders = m.insert_one order s.orders })
    count_session table
    pure order

  -- `by_customer` says that the source is `qr_customer`; `public_id` is the random identifier.
  unfoldable pub create_order : Scope → ℕ → ℕ → Bool → OrderBody → Action (Database m) Order
  unfolding first_id order_items named_session book_order authorized_branch writable_day
  create_order scope today public_id by_customer body = do
    cafe_only scope
    table ← named_session scope body.table_session_public_id
    order_type ← required body.order_type validation_error
    require_value (not (is_dine_in body.order_type) || is_some table)
    branch ←
        authorized_branch m scope
          (first_id (session_branch table) body.branch_id scope.user.branch_id)
    writable_day m scope branch.id today
    require_value (leb 1 (length body.items) && leb (length body.items) 25)
    require_value (leb (length body.customer_notes) 500)
    lines ← order_items scope.company.id branch.id 1 body.items
    total ← lift (decimal (pos lines.0))
    book_order table (record {
      id = 0;
      company_id = scope.company.id;
      branch_id = branch.id;
      public_id = public_id;
      table_session_public_id = session_id table;
      table_id = session_table table;
      order_type = order_type;
      status = placed;
      subtotal = total;
      estimated_total = total;
      items = lines.1;
      created_by = if by_customer then none else some scope.user.id;
      accepted_by = none;
      version = 1;
      billed_invoice_id = none;
      counter_items = [];
    })
