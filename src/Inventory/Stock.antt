-- ===== src/Inventory/Stock.antt =====
-- What `adjust` does to the stock of a product (inventory.ts).
use cafe_retail_software.Inventory.Booked.{Changed, quantity, adjust-IsBooked, IsStocked}
use cafe_retail_software.Security.{Scope}
use cafe_retail_software.Money.{decimal}
use cafe_retail_software.Result.{ok}
use cafe_retail_software.Database.{Database}
use cafe_retail_software.Prelude.Int.{pos, ℤ, ◌≤ℤ◌, ◌+ℤ◌, negsuc}
use cafe_retail_software.Prelude.{
  ℕ, Bool, List, ◌≡◌, ◌⊎◌, ◌++◌, arith, ◌∷◌, [], inl, inr, All, All-modify_first, All-append, ◌≢◌,
  find_first-modify_first_other, find_first-modify_first, find_first-append_other, find_first-holds,
  find_first-append_none,
}
use cafe_retail_software.Inventory.{of_product, add_stock, adjust, Adjustment, signed_change}
use cafe_retail_software.Documents.{Inventory, Movement}
use cafe_retail_software.Mongo.{Mongo}

-- The stock of a product after a booked change is the stock before plus the change.
quantity-Changed :
    (company branch product : ℕ) (change : ℤ) (before after : List Inventory)
    → Changed (of_product company branch product) change before after
    → quantity company branch product after ≡ quantity company branch product before +ℤ change
unfolding Changed
quantity-Changed company branch product change before after (inl (r, found, enough, written)) =
    let p = of_product company branch product in
    rw written (
      rw
        (find_first-modify_first p (add_stock change) before r found
          (find_first-holds p before found))
        (rw found))
quantity-Changed company branch product change before after
      (inr (r, missing, own, empty, enough, added)) =
    let p = of_product company branch product in
    rw added (
      rw (find_first-append_none p before (add_stock change r ∷ []) missing)
        (rw (own, missing, empty)))

quantity-Changed_other :
    (company branch product branch' product' : ℕ) (change : ℤ) (before after : List Inventory)
    → (branch ≢ branch') ⊎ (product ≢ product')
    → Changed (of_product company branch product) change before after
    → quantity company branch' product' after ≡ quantity company branch' product' before
unfolding Changed
quantity-Changed_other company branch product branch' product' change before after other
      (inl (r, found, enough, written)) =
    rw written (
      rw (
        find_first-modify_first_other (of_product company branch product)
          (of_product company branch' product') (add_stock change) before (λ x e. ground arith)))
quantity-Changed_other company branch product branch' product' change before after other
      (inr (r, missing, own, empty, enough, added)) =
    rw added (
      rw (
        find_first-append_other (of_product company branch' product') before (add_stock change r)
          (ground arith)))

Changed-quantity_nonneg :
    (company branch product : ℕ) (change : ℤ) (before after : List Inventory)
    → Changed (of_product company branch product) change before after
    → pos 0 ≤ℤ quantity company branch product before +ℤ change
unfolding Changed
Changed-quantity_nonneg company branch product change before after
      (inl (r, found, enough, written)) =
    rw found enough
Changed-quantity_nonneg company branch product change before after
      (inr (r, missing, own, empty, enough, added)) =
    rw missing (rw empty at enough)

-- Stock that is nowhere negative stays so.
Changed-IsStocked :
    (p : Inventory → Bool) (change : ℤ) (before after : List Inventory)
    → Changed p change before after
    → All IsStocked before
    → All IsStocked after
unfolding Changed
Changed-IsStocked p change before after (inl (r, found, enough, written)) h =
    rw written (All-modify_first IsStocked p (add_stock change) before r found enough h)
Changed-IsStocked p change before after (inr (r, missing, own, empty, enough, added)) h =
    rw added (All-append IsStocked before (add_stock change r ∷ []) h (enough, tt))

module _ (m : Mongo) where
  -- An adjustment that returns moves the stock of the product it names by the change it asks for and the
  -- stock of no other product of the company, records one movement of that product with that change, and
  -- leaves no stock negative where none was.
  pub adjust_stock :
      (scope : Scope) (body : Adjustment) (s : Database m) {movement : Movement} {t : Database m}
      → adjust m scope body s ≡ ok (movement, t)
      → let c = scope.company.id in
        (change : ℤ) × (signed_change body.quantity_change ≡ ok change)
        × (quantity c body.branch_id body.product_id (m.docs t.inventory)
            ≡ quantity c body.branch_id body.product_id (m.docs s.inventory) +ℤ change)
        × ((branch product : ℕ)
            → (body.branch_id ≢ branch) ⊎ (body.product_id ≢ product)
            → quantity c branch product (m.docs t.inventory)
              ≡ quantity c branch product (m.docs s.inventory))
        × (All IsStocked (m.docs s.inventory) → All IsStocked (m.docs t.inventory))
        × (m.docs t.movements ≡ m.docs s.movements ++ (movement ∷ []))
        × (movement.product_id ≡ body.product_id)
        × (decimal change ≡ ok movement.quantity_change)
  adjust_stock scope body s h =
      let (change, read, _, _, booked) = adjust-IsBooked m scope body s h in
      let c = scope.company.id in
      let changed = booked.stock_changed in
      (
        change,
        read,
        quantity-Changed c body.branch_id body.product_id change _ _ changed,
        λ branch product other.
            quantity-Changed_other c body.branch_id body.product_id branch product change _ _ other
              changed,
        Changed-IsStocked (of_product c body.branch_id body.product_id) change _ _ changed,
        booked.movement_added,
        booked.of_item,
        booked.text_of_change,
      )

  -- An adjustment that would make the stock of the product negative is refused, and writes nothing.
  pub adjust_insufficient :
      (scope : Scope) (body : Adjustment) (change : ℤ) (s : Database m) {movement : Movement}
      {t : Database m}
      → signed_change body.quantity_change ≡ ok change
      → quantity scope.company.id body.branch_id body.product_id (m.docs s.inventory) +ℤ change
        ≤ℤ negsuc 0
      → adjust m scope body s ≢ ok (movement, t)
  adjust_insufficient scope body change s read short h =
      let (change', read', _, _, booked) = adjust-IsBooked m scope body s h in
      let enough =
        Changed-quantity_nonneg scope.company.id body.branch_id body.product_id change' _ _
          booked.stock_changed in
      let same : change' ≡ change = ground arith in absurd (omega (arith, rw same at enough))
