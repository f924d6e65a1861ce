-- ===== src/Purchasing/Moves.antt =====
-- What the moves of an order's lines leave alone (purchasing.ts).
use mathlib.Core.Path.{subst}
use cafe_retail_software.Purchasing.Receipt.{IsConserved}
use cafe_retail_software.Result.{
  ok, >>=-eq-ok, ran, lift->>=-eq-ok, ensure->>-eq-ok, ok-injective, reads, validation_error,
}
use cafe_retail_software.Prelude.Int.{ℤ, ltb_ℤ, ◌+ℤ◌, pos}
use cafe_retail_software.Documents.{Inventory}
use cafe_retail_software.Documents.Purchases.{PurchaseOrder, PurchaseItem}
use cafe_retail_software.Security.{Scope}
use cafe_retail_software.Database.{Database}
use cafe_retail_software.Purchasing.{
  PurchaseAction, receive, submit, line_quantity, approve, cancel, on_order_change, mark_ordered,
}
use cafe_retail_software.Prelude.{
  Bool, ℕ, List, ◌≡◌, All, arith, inl, true, inr, not, ◌∷◌, false, ◌∙◌, [], refl,
}
use cafe_retail_software.Inventory.{new_stock, record_movement, of_product}
use cafe_retail_software.Purchasing.Actions.{
  move_line, move_stock, moved_line, move_lines, receipt_movement, order_stock,
}
use cafe_retail_software.Mongo.{Mongo, find_one-cases}

module _ (m : Mongo) where
  pub receipt_movement_keeps :
      (action : PurchaseAction) (scope : Scope) (order : PurchaseOrder) (product quantity : ℕ)
      (s : Database m) {t : Database m}
      → receipt_movement m action scope order product quantity s ≡ ok (tt, t)
      → (t.purchase_orders ≡ s.purchase_orders) × (t.inventory ≡ s.inventory)
  unfolding receipt_movement record_movement
  receipt_movement_keeps receive scope order product quantity s h = ground arith
  receipt_movement_keeps submit scope order product quantity s h = ground arith
  receipt_movement_keeps approve scope order product quantity s h = ground arith
  receipt_movement_keeps cancel scope order product quantity s h = ground arith
  receipt_movement_keeps mark_ordered scope order product quantity s h = ground arith

  new_stock_keeps :
      (company branch product : ℕ) (s : Database m) {row : Inventory} {t : Database m}
      → new_stock m company branch product s ≡ ok (row, t)
      → t.purchase_orders ≡ s.purchase_orders
  unfolding new_stock
  new_stock_keeps company branch product s h = ground arith

  order_stock_keeps :
      (company branch product : ℕ) (s : Database m) {row : Inventory} {t : Database m}
      → order_stock m company branch product s ≡ ok (row, t)
      → t.purchase_orders ≡ s.purchase_orders
  unfolding order_stock
  order_stock_keeps company branch product s {row = row} {t = t} h =
      elim (find_one-cases m (of_product company branch product) s.inventory) [
        | inl missing ↦ new_stock_keeps company branch product s {row = row} {t = t} (ground arith)
        | inr (r, found, passes) ↦ ground arith
      ]

  move_stock_keeps :
      (action : PurchaseAction) (scope : Scope) (order : PurchaseOrder) (product quantity : ℕ)
      (change : ℤ) (s : Database m) {t : Database m}
      → move_stock m action scope order product quantity change s ≡ ok (tt, t)
      → t.purchase_orders ≡ s.purchase_orders
  unfolding move_stock
  move_stock_keeps action scope order product quantity change s h =
      elim (>>=-eq-ok (order_stock m scope.company.id order.branch_id product) _ s h) [
        | ran row u got h1 ↦
            let (_, h2) =
              ensure->>-eq-ok (not (ltb_ℤ (row.on_order_scaled +ℤ change) (pos 0))) validation_error
                _ u h1 in
            (receipt_movement_keeps action scope order product quantity _ h2).0
            ∙ order_stock_keeps scope.company.id order.branch_id product s got
      ]

  -- A line that is moved has the same quantities, and no order is written.
  moved_line_keeps :
      (skipped : Bool) (action : PurchaseAction) (scope : Scope) (order : PurchaseOrder)
      (item : PurchaseItem) (quantity : ℕ) (change : ℤ) (s : Database m) {next : PurchaseItem}
      {t : Database m}
      → moved_line m skipped action scope order item quantity change s ≡ ok (next, t)
      → (t.purchase_orders ≡ s.purchase_orders) × (IsConserved item → IsConserved next)
  unfolding moved_line
  moved_line_keeps true action scope order item quantity change s h =
      subst (λ p. (p.1.purchase_orders ≡ s.purchase_orders) × (IsConserved item → IsConserved p.0))
        (ok-injective h) (refl, λ c. c)
  moved_line_keeps false action scope order item quantity change s h =
      elim (>>=-eq-ok (move_stock m action scope order item.product_id quantity change) _ s h) [
        | ran _ u moved h1 ↦
            subst
              (λ p.
                (p.1.purchase_orders ≡ s.purchase_orders) × (IsConserved item → IsConserved p.0))
              (ok-injective h1)
              (
                move_stock_keeps action scope order item.product_id quantity change s moved,
                λ c. record {
                  amount = c.amount;
                  arrived = c.arrived;
                  left = c.left;
                  reads_ordered = c.reads_ordered;
                  reads_received = c.reads_received;
                  reads_remaining = c.reads_remaining;
                  sums_up = c.sums_up;
                },
              )
      ]

  move_line_keeps :
      (action : PurchaseAction) (scope : Scope) (order : PurchaseOrder) (item : PurchaseItem)
      (s : Database m) {next : PurchaseItem} {t : Database m}
      → move_line m action scope order item s ≡ ok (next, t)
      → (t.purchase_orders ≡ s.purchase_orders) × (IsConserved item → IsConserved next)
  unfolding move_line
  move_line_keeps action scope order item s h =
      elim (lift->>=-eq-ok (line_quantity action item) _ s h) [
        | reads quantity read h1 ↦
            moved_line_keeps _ action scope order item quantity
              (on_order_change action order.status quantity) s h1
      ]

  pub move_lines_keeps :
      (action : PurchaseAction) (scope : Scope) (order : PurchaseOrder) (items : List PurchaseItem)
      (s : Database m) {items' : List PurchaseItem} {t : Database m}
      → move_lines m action scope order items s ≡ ok (items', t)
      → (t.purchase_orders ≡ s.purchase_orders) × (All IsConserved items → All IsConserved items')
  unfolding move_lines
  move_lines_keeps action scope order [] s h =
      subst (λ p. (p.1.purchase_orders ≡ s.purchase_orders) × (Unit {0} → All IsConserved p.0))
        (ok-injective h) (refl, λ c. tt)
  move_lines_keeps action scope order (item ∷ items) s h =
      elim (>>=-eq-ok (move_line m action scope order item) _ s h) [
        | ran first u moved h1 ↦ elim (>>=-eq-ok (move_lines m action scope order items) _ u h1) [
          | ran rest v others h2 ↦
              let (same, keeps) = move_line_keeps action scope order item s moved in
              let (same', keeps') = move_lines_keeps action scope order items u others in
              subst
                (λ p.
                  (p.1.purchase_orders ≡ s.purchase_orders)
                  × (IsConserved item × All IsConserved items → All IsConserved p.0))
                (ok-injective h2) (same' ∙ same, λ c. (keeps c.0, keeps' c.1))
        ]
      ]
