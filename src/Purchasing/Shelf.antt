-- ===== src/Purchasing/Shelf.antt =====
-- What an action on a purchase order does to the stock (purchasing.ts): the quantity on the shelf and the
-- quantity on order, product by product.
use cafe_retail_software.Purchasing.Moves.{receipt_movement_keeps}
use cafe_retail_software.Documents.Purchases.{PurchaseOrder}
use cafe_retail_software.Result.{ok, >>=-eq-ok, ran, ensure->>-eq-ok, validation_error}
use cafe_retail_software.Security.{Scope}
use cafe_retail_software.Database.{Database}
use cafe_retail_software.Purchasing.{PurchaseAction, add_ordered, stock_change}
use cafe_retail_software.Prelude.Int.{ℤ, pos, ◌≤ℤ◌, ◌+ℤ◌, ltb_ℤ}
use cafe_retail_software.Prelude.{
  ℕ, Bool, List, ◌≡◌, Option, ◌≢◌, find_first, some, none, true, ◌⊎◌, arith, modify_first, inl, sym,
  find_first-modify_first, find_first-modify_first_other, ◌++◌, inr, ◌∷◌, find_first-append_other,
  find_first-holds, ◌∙◌, find_first-append_none, modify_first-append_none, [], not, refl,
}
use cafe_retail_software.Inventory.{new_stock, of_product}
use cafe_retail_software.Documents.{Inventory}
use cafe_retail_software.Purchasing.Actions.{order_stock, move_stock}
use cafe_retail_software.Mongo.{Mongo, find_one-cases}

abbrev column : (Inventory → ℤ) → Option Inventory → ℤ
column g none = pos 0
column g (some r) = g r

-- One column of a product's row, nothing where it has no row.
abbrev pub stock_of : (Inventory → ℤ) → ℕ → ℕ → ℕ → List Inventory → ℤ
stock_of g company branch product rows =
    column g (find_first (of_product company branch product) rows)

abbrev pub on_shelf : Inventory → ℤ
on_shelf r = r.quantity_scaled

abbrev pub on_order : Inventory → ℤ
on_order r = r.on_order_scaled

-- The row that is there is written, or a row with nothing in it is added and written.
pub Moved : (Inventory → Bool) → (Inventory → Inventory) → List Inventory → List Inventory → Type 0
Moved p f before after =
    ((r : Inventory) × (find_first p before ≡ some r)
      × (pos 0 ≤ℤ (f r).on_order_scaled)
      × (after ≡ modify_first p f before))
    ⊎ ((r : Inventory) × (find_first p before ≡ none)
        × (p r ≡ true)
        × (r.quantity_scaled ≡ pos 0)
        × (r.on_order_scaled ≡ pos 0)
        × (pos 0 ≤ℤ (f r).on_order_scaled)
        × (after ≡ before ++ (f r ∷ [])))

module _ (company branch product : ℕ) (change expected : ℤ) (before after : List Inventory) where
  pub on_shelf-Moved :
      Moved (of_product company branch product) (add_ordered change expected) before after
      → stock_of on_shelf company branch product after
        ≡ stock_of on_shelf company branch product before +ℤ change
  unfolding Moved
  on_shelf-Moved (inl (r, found, enough, written)) =
      let p = of_product company branch product in
      rw written (
        rw
          (find_first-modify_first p (add_ordered change expected) before r found
            (find_first-holds p before found))
          (rw found refl))
  on_shelf-Moved (inr (r, missing, own, empty, nothing, enough, added)) =
      let p = of_product company branch product in
      rw added (
        rw (find_first-append_none p before (add_ordered change expected r ∷ []) missing)
          (rw (own, missing, empty) refl))

  pub on_order-Moved :
      Moved (of_product company branch product) (add_ordered change expected) before after
      → stock_of on_order company branch product after
        ≡ stock_of on_order company branch product before +ℤ expected
  unfolding Moved
  on_order-Moved (inl (r, found, enough, written)) =
      let p = of_product company branch product in
      rw written (
        rw
          (find_first-modify_first p (add_ordered change expected) before r found
            (find_first-holds p before found))
          (rw found refl))
  on_order-Moved (inr (r, missing, own, empty, nothing, enough, added)) =
      let p = of_product company branch product in
      rw added (
        rw (find_first-append_none p before (add_ordered change expected r ∷ []) missing)
          (rw (own, missing, nothing) refl))

  pub Moved-other :
      (g : Inventory → ℤ) (branch' product' : ℕ)
      → (branch ≢ branch') ⊎ (product ≢ product')
      → Moved (of_product company branch product) (add_ordered change expected) before after
      → stock_of g company branch' product' after ≡ stock_of g company branch' product' before
  unfolding Moved
  Moved-other g branch' product' other (inl (r, found, enough, written)) = rw written (
      rw
        (find_first-modify_first_other (of_product company branch product)
          (of_product company branch' product') (add_ordered change expected) before
          (λ x e. ground arith))
        refl)
  Moved-other g branch' product' other (inr (r, missing, own, empty, nothing, enough, added)) =
      rw added (
        rw
          (find_first-append_other (of_product company branch' product') before
            (add_ordered change expected r) (ground arith))
          refl)

module _ (m : Mongo) where
  new_stock_effect :
      (company branch product : ℕ) (s : Database m) {row : Inventory} {t : Database m}
      → new_stock m company branch product s ≡ ok (row, t)
      → (of_product company branch product row ≡ true)
        × (row.quantity_scaled ≡ pos 0)
        × (row.on_order_scaled ≡ pos 0)
        × (t.inventory ≡ m.insert_one row s.inventory)
  unfolding new_stock
  new_stock_effect company branch product s h = ground arith

  -- The row that is there, or a new one with nothing in it.
  order_stock_cases :
      (company branch product : ℕ) (s : Database m) {row : Inventory} {t : Database m}
      → order_stock m company branch product s ≡ ok (row, t)
      → ((m.find_one (of_product company branch product) s.inventory ≡ some row)
          × (t.inventory ≡ s.inventory))
        ⊎ ((m.find_one (of_product company branch product) s.inventory ≡ none)
            × (of_product company branch product row ≡ true)
            × (row.quantity_scaled ≡ pos 0)
            × (row.on_order_scaled ≡ pos 0)
            × (t.inventory ≡ m.insert_one row s.inventory))
  unfolding order_stock
  order_stock_cases company branch product s {row = row} {t = t} h =
      elim (find_one-cases m (of_product company branch product) s.inventory) [
        | inl missing ↦
            let (own, empty, nothing, added) =
              new_stock_effect company branch product s {row = row} {t = t} (ground arith) in
            inr (missing, own, empty, nothing, added)
        | inr (r, found, passes) ↦ inl (ground arith, ground arith)
      ]

  Moved-written :
      (p : Inventory → Bool) (f : Inventory → Inventory) (c c' : m.Collection Inventory)
      (row : Inventory)
      → ((m.find_one p c ≡ some row) × (c' ≡ c))
        ⊎ ((m.find_one p c ≡ none)
            × (p row ≡ true)
            × (row.quantity_scaled ≡ pos 0)
            × (row.on_order_scaled ≡ pos 0)
            × (c' ≡ m.insert_one row c))
      → pos 0 ≤ℤ (f row).on_order_scaled
      → Moved p f (m.docs c) (m.docs (m.update_one p f c'))
  unfolding Moved
  Moved-written p f c c' row (inl (found, same)) enough =
      inl (row, sym (m.find_one-eq p c) ∙ found, enough, m.docs-update_one p f c' ∙ rw same refl)
  Moved-written p f c c' row (inr (missing, own, empty, nothing, added)) enough =
      let before : find_first p (m.docs c) ≡ none = sym (m.find_one-eq p c) ∙ missing in
      inr (
        row,
        before,
        own,
        empty,
        nothing,
        enough,
        m.docs-update_one p f c'
            ∙ rw (added, m.docs-insert_one row c)
                (modify_first-append_none p f (m.docs c) (row ∷ []) before ∙ rw own refl),
      )

  pub move_stock-Moved :
      (action : PurchaseAction) (scope : Scope) (order : PurchaseOrder) (product quantity : ℕ)
      (change : ℤ) (s : Database m) {t : Database m}
      → move_stock m action scope order product quantity change s ≡ ok (tt, t)
      → Moved
          (of_product scope.company.id order.branch_id product)
          (add_ordered (stock_change action quantity) change)
          (m.docs s.inventory)
          (m.docs t.inventory)
  unfolding move_stock
  move_stock-Moved action scope order product quantity change s h =
      let p = of_product scope.company.id order.branch_id product in
      let f = add_ordered (stock_change action quantity) change in
      elim (>>=-eq-ok (order_stock m scope.company.id order.branch_id product) _ s h) [
        | ran row u got h1 ↦
            let (enough, h2) =
              ensure->>-eq-ok (not (ltb_ℤ (row.on_order_scaled +ℤ change) (pos 0))) validation_error
                _ u h1 in
            let (_, same) = receipt_movement_keeps m action scope order product quantity _ h2 in
            rw same (
              Moved-written p f s.inventory u.inventory row
                (order_stock_cases scope.company.id order.branch_id product s got) (ground arith))
      ]
