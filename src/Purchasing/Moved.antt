-- ===== src/Purchasing/Moved.antt =====
-- The stock after one line of a purchase order is moved (purchasing.ts).
use cafe_retail_software.Documents.{Inventory}
use mathlib.Core.Path.{subst}
use cafe_retail_software.Purchasing.Shelf.{
  stock_of, on_shelf, on_order, move_stock-Moved, on_shelf-Moved, Moved-other, on_order-Moved,
}
use cafe_retail_software.Database.{Database}
use cafe_retail_software.Security.{Scope}
use cafe_retail_software.Documents.Purchases.{PurchaseOrder, PurchaseStatus, PurchaseItem}
use cafe_retail_software.Purchasing.Actions.{moved_line, move_stock, move_line}
use cafe_retail_software.Prelude.{
  ℕ, Bool, ◌≡◌, List, true, ◌∷◌, if◌then◌else◌, arith, Bool-cases, ◌==◌, [], inl, inr, ◌≢◌, ◌∙◌,
  sym, refl, false,
}
use cafe_retail_software.Result.{
  Result, ok, err, ok-injective, >>=-eq-ok, ran, lift->>=-eq-ok, reads,
}
use cafe_retail_software.Purchasing.{
  PurchaseAction, on_order_change, line_quantity, is_skipped, stock_change, receive, submit,
  approve, mark_ordered, cancel,
}
use cafe_retail_software.Prelude.Int.{ℤ, ◌+ℤ◌, int_laws, pos}
use cafe_retail_software.Mongo.{Mongo}

-- How many of a line an action moves, nothing where its text is no decimal.
abbrev ok_or_none : Result ℕ → ℕ
ok_or_none (ok n) = n
ok_or_none (err e) = 0

abbrev pub line_amount : PurchaseAction → PurchaseItem → ℕ
line_amount action item = ok_or_none (line_quantity action item)

-- What the lines of a product add to a column of its row, `d` being what a quantity adds.
unfoldable pub total_change : (ℕ → ℤ) → PurchaseAction → ℕ → List PurchaseItem → ℤ
total_change d action product [] = pos 0
total_change d action product (item ∷ items) =
    (if item.product_id == product then d (line_amount action item) else pos 0)
    +ℤ total_change d action product items

pub add_zero : (a : ℤ) → a ≡ a +ℤ pos 0
add_zero a = omega int_laws

pub add_assoc : (a b c : ℤ) → a +ℤ b +ℤ c ≡ a +ℤ (b +ℤ c)
add_assoc a b c = omega int_laws

-- A line that is passed over moves nothing.
skipped_moves_none :
    (action : PurchaseAction) (old : PurchaseStatus) (n : ℕ)
    → is_skipped action (on_order_change action old n) n ≡ true
    → (stock_change action n ≡ pos 0) × (on_order_change action old n ≡ pos 0)
unfolding on_order_change
skipped_moves_none receive old n h = ground arith
skipped_moves_none submit old n h = ground arith
skipped_moves_none approve old n h = ground arith
skipped_moves_none mark_ordered old n h = ground arith
skipped_moves_none cancel old n h = ground arith

-- What a line has moved: the two columns of its own product, and none of another's.
pub record IsMoved (m : Mongo) (action : PurchaseAction) (company : ℕ) (order : PurchaseOrder)
    (item : PurchaseItem) (s t : Database m) : Type 0 where
  pub shelf :
      (product : ℕ)
      → stock_of on_shelf company order.branch_id product (m.docs t.inventory)
        ≡ stock_of on_shelf company order.branch_id product (m.docs s.inventory)
          +ℤ (if item.product_id == product
              then stock_change action (line_amount action item)
              else pos 0)
  pub expected :
      (product : ℕ)
      → stock_of on_order company order.branch_id product (m.docs t.inventory)
        ≡ stock_of on_order company order.branch_id product (m.docs s.inventory)
          +ℤ (if item.product_id == product
              then on_order_change action order.status (line_amount action item)
              else pos 0)
  pub elsewhere :
      (g : Inventory → ℤ) (branch product : ℕ)
      → branch ≢ order.branch_id
      → stock_of g company branch product (m.docs t.inventory)
        ≡ stock_of g company branch product (m.docs s.inventory)

module _ (m : Mongo) where
  moved_line-IsMoved :
      (skipped : Bool) (action : PurchaseAction) (scope : Scope) (order : PurchaseOrder)
      (item : PurchaseItem) (n : ℕ) (s : Database m) {next : PurchaseItem} {t : Database m}
      → line_amount action item ≡ n
      → is_skipped action (on_order_change action order.status n) n ≡ skipped
      → moved_line m skipped action scope order item n (on_order_change action order.status n) s
        ≡ ok (next, t)
      → IsMoved m action scope.company.id order item s t
  unfolding moved_line
  moved_line-IsMoved true action scope order item n s amount skip h =
      let (none_shelf, none_ordered) = skipped_moves_none action order.status n skip in
      subst (λ p. IsMoved m action scope.company.id order item s p.1) (ok-injective h)
        (record {
          shelf = λ product.
              rw (amount, none_shelf)
                (elim (Bool-cases (item.product_id == product)) [
                  | inl e ↦ rw e (add_zero _)
                  | inr e ↦ rw e (add_zero _)
                ]);
          expected = λ product.
              rw (amount, none_ordered)
                (elim (Bool-cases (item.product_id == product)) [
                  | inl e ↦ rw e (add_zero _)
                  | inr e ↦ rw e (add_zero _)
                ]);
          elsewhere = λ g branch product far. refl;
        })
  moved_line-IsMoved false action scope order item n s amount skip h =
      let change = on_order_change action order.status n in
      let c = scope.company.id in
      let b = order.branch_id in
      elim (>>=-eq-ok (move_stock m action scope order item.product_id n change) _ s h) [
        | ran _ u did h1 ↦
            let own : (product : ℕ)
                → (item.product_id == product) ≡ true
                → item.product_id ≡ product =
              λ product e. ground arith in
            let other : (product : ℕ)
                → (item.product_id == product) ≡ false
                → item.product_id ≢ product =
              λ product e. ground arith in
            let moved = move_stock-Moved m action scope order item.product_id n change s did in
            subst (λ p. IsMoved m action scope.company.id order item s p.1) (ok-injective h1)
              (record {
                shelf = λ product. elim (Bool-cases (item.product_id == product)) [
                  | inl e ↦
                      rw (e, amount)
                        (subst
                          (λ x.
                            stock_of on_shelf c b x (m.docs u.inventory)
                            ≡ stock_of on_shelf c b x (m.docs s.inventory) +ℤ stock_change action n)
                          (own product e) (on_shelf-Moved c b item.product_id _ _ _ _ moved))
                  | inr e ↦ rw e (
                      Moved-other c b item.product_id _ _ _ _ on_shelf b product
                        (inr (other product e)) moved
                      ∙ add_zero _)
                ];
                expected = λ product. elim (Bool-cases (item.product_id == product)) [
                  | inl e ↦
                      rw (e, amount)
                        (subst
                          (λ x.
                            stock_of on_order c b x (m.docs u.inventory)
                            ≡ stock_of on_order c b x (m.docs s.inventory) +ℤ change)
                          (own product e) (on_order-Moved c b item.product_id _ _ _ _ moved))
                  | inr e ↦ rw e (
                      Moved-other c b item.product_id _ _ _ _ on_order b product
                        (inr (other product e)) moved
                      ∙ add_zero _)
                ];
                elsewhere = λ g branch product far.
                    Moved-other c b item.product_id _ _ _ _ g branch product
                      (inl (λ e. far (sym e))) moved;
              })
      ]

  pub move_line-IsMoved :
      (action : PurchaseAction) (scope : Scope) (order : PurchaseOrder) (item : PurchaseItem)
      (s : Database m) {next : PurchaseItem} {t : Database m}
      → move_line m action scope order item s ≡ ok (next, t)
      → IsMoved m action scope.company.id order item s t
  unfolding move_line
  move_line-IsMoved action scope order item s h =
      elim (lift->>=-eq-ok (line_quantity action item) _ s h) [
        | reads n read h1 ↦ moved_line-IsMoved _ action scope order item n s (rw read refl) refl h1
      ]
