-- ===== src/Purchasing/Actions.antt =====
-- apps/web/src/server/purchasing.ts: the actions on an order, and what they do to the stock.
use cafe_retail_software.Money.{decimal}
use cafe_retail_software.Documents.{purchase_received, Inventory}
use cafe_retail_software.Database.{Database}
use cafe_retail_software.Result.{
  Action, Result, ◌>>◌, pure, ◌>>=◌, map_ok, ensure, lift, require_value, gets, invalid_state, ok,
  err, forbidden, modify, validation_error,
}
use cafe_retail_software.Prelude.Int.{ℤ, pos, ltb_ℤ, ◌+ℤ◌}
use cafe_retail_software.Documents.Purchases.{
  PurchaseOrder, PurchaseItem, PurchaseStatus, partially_received, received,
}
use cafe_retail_software.Security.{Scope, owners}
use cafe_retail_software.Prelude.{
  Bool, List, ℕ, Option, some, if◌then◌else◌, ◌∷◌, leb, true, [], not, length, none, false, ◌&&◌,
  ◌||◌, ◌+◌,
}
use cafe_retail_software.Purchasing.Lines.{some_remaining, receive_lines, sum_scaled}
use cafe_retail_software.Purchasing.{
  starts_from, line_quantity, PurchaseAction, on_order_change, for_owner, PurchaseBody, approve,
  cleared, receive, is_skipped, leads_to, add_ordered, stock_change, saved_order,
}
use cafe_retail_software.Inventory.{record_movement, new_stock, of_product}
use cafe_retail_software.Mongo.{Mongo}

-- The lines once a receipt's entries are entered in them.
unfoldable pub entered_lines :
    PurchaseAction → PurchaseOrder → PurchaseBody → Result (List PurchaseItem)
unfolding receive_lines
entered_lines receive order body =
    if leb 1 (length body.receipts) && leb (length body.receipts) (length order.items)
    then receive_lines [] order.items body.receipts
    else err validation_error
entered_lines _ order body = ok order.items

-- A receipt that leaves something to come is a partial one.
unfoldable pub next_status : PurchaseAction → List PurchaseItem → Result PurchaseStatus
unfolding some_remaining
next_status receive items =
    map_ok (λ some_left. if some_left then partially_received else received) (some_remaining items)
next_status action items = ok (leads_to action)

unfoldable pub approver : PurchaseAction → ℕ → Option ℕ → Option ℕ
approver approve user old = some user
approver _ user old = old

module _ (m : Mongo) where
  -- The row of a product, or a new one with nothing in it.
  unfoldable pub order_stock : ℕ → ℕ → ℕ → Action (Database m) Inventory
  unfolding new_stock
  order_stock company branch product = do
    found ← gets (λ s. m.find_one (of_product company branch product) s.inventory)
    elim found [ some row ↦ pure row | none ↦ new_stock m company branch product ]

  -- The movement that a receipt records.
  unfoldable pub receipt_movement :
      PurchaseAction → Scope → PurchaseOrder → ℕ → ℕ → Action (Database m) (Unit {0})
  unfolding record_movement
  receipt_movement receive scope order product quantity =
      record_movement m purchase_received scope.company.id order.branch_id product (pos quantity)
        (some order.id) scope.user.id
      >>= λ movement. pure tt
  receipt_movement _ scope order product quantity = pure tt

  -- The quantities of one line on the shelf and on order.
  unfoldable pub move_stock :
      PurchaseAction → Scope → PurchaseOrder → ℕ → ℕ → ℤ → Action (Database m) (Unit {0})
  unfolding order_stock receipt_movement
  move_stock action scope order product quantity change = do
    stock ← order_stock scope.company.id order.branch_id product
    require_value (not (ltb_ℤ (stock.on_order_scaled +ℤ change) (pos 0)))
    modify (λ s. record s {
      inventory =
          m.update_one (of_product scope.company.id order.branch_id product)
            (add_ordered (stock_change action quantity) change) s.inventory;
    })
    receipt_movement action scope order product quantity

  -- A line that is passed over stays, another one is moved.
  unfoldable pub moved_line :
      Bool
      → PurchaseAction
      → Scope
      → PurchaseOrder
      → PurchaseItem
      → ℕ
      → ℤ
      → Action (Database m) PurchaseItem
  unfolding move_stock
  moved_line true action scope order item quantity change = pure item
  moved_line false action scope order item quantity change =
      move_stock action scope order item.product_id quantity change >> pure (cleared item)

  unfoldable pub move_line :
      PurchaseAction → Scope → PurchaseOrder → PurchaseItem → Action (Database m) PurchaseItem
  unfolding line_quantity on_order_change moved_line
  move_line action scope order item = do
    quantity ← lift (line_quantity action item)
    let change : ℤ = on_order_change action order.status quantity
    moved_line (is_skipped action change quantity) action scope order item quantity change

  unfoldable pub move_lines :
      PurchaseAction
      → Scope
      → PurchaseOrder
      → List PurchaseItem
      → Action (Database m) (List PurchaseItem)
  unfolding move_line
  move_lines action scope order [] = pure []
  move_lines action scope order (item ∷ items) = do
    first ← move_line action scope order item
    rest ← move_lines action scope order items
    pure (first ∷ rest)

  unfoldable pub act_on_order :
      PurchaseAction → Scope → PurchaseBody → PurchaseOrder → Action (Database m) PurchaseOrder
  unfolding starts_from for_owner entered_lines move_lines next_status approver sum_scaled
  act_on_order action scope body order = do
    ensure (starts_from action order.status) invalid_state
    ensure (not (for_owner action order.status) || owners scope.user.role) forbidden
    entered ← lift (entered_lines action order body)
    items ← move_lines action scope order entered
    status ← lift (next_status action items)
    total ← lift (sum_scaled (λ i. i.quantity_received) items)
    total_text ← lift (decimal (pos total))
    let next : PurchaseOrder = record order {
      status = status;
      items = items;
      total_quantity_received = total_text;
      approved_by = approver action scope.user.id order.approved_by;
      version = order.version + 1;
    }
    modify (λ s. record s {
      purchase_orders =
          m.update_one (saved_order order.id scope.company.id) (λ r. next) s.purchase_orders;
    })
    pure next
