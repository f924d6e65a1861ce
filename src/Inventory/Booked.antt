-- ===== src/Inventory/Booked.antt =====
-- What `adjust` writes: one row of the stock and one movement (inventory.ts).
use cafe_retail_software.Security.Isolation.{authorized_branch_scope}
use cafe_retail_software.Security.{Scope, authorized_branch, managers}
use cafe_retail_software.Money.{decimal}
use cafe_retail_software.Result.{ok, >>=-eq-ok, ran, Result-cases}
use cafe_retail_software.Database.{Database, required_row, required_row-holds}
use cafe_retail_software.Prelude.Int.{pos, ℤ, ◌≤ℤ◌, ◌+ℤ◌}
use cafe_retail_software.Prelude.{
  ℕ, Bool, List, find_first, ◌≡◌, some, ◌⊎◌, none, modify_first, true, ◌++◌, arith, ◌∷◌, [], sym,
  inl, ◌∙◌, inr, Option, modify_first-append_none, ◌≢◌,
}
use cafe_retail_software.Inventory.{
  stock_row, of_product, add_stock, apply_adjustment, record_movement, book_stock, active_product,
  adjust, Adjustment, signed_change,
}
use cafe_retail_software.Documents.{Inventory, Movement, MovementType, manual_adjustment}
use cafe_retail_software.Mongo.{Mongo}

abbrev in_stock : Option Inventory → ℤ
in_stock none = pos 0
in_stock (some r) = r.quantity_scaled

-- The quantity of a product, nothing where it has no row.
abbrev pub quantity : ℕ → ℕ → ℕ → List Inventory → ℤ
quantity company branch product rows =
    in_stock (find_first (of_product company branch product) rows)

abbrev pub IsStocked : Inventory → Type 0
IsStocked r = pos 0 ≤ℤ r.quantity_scaled

-- The row that is there is written, or a row with nothing in it is added and written.
unfoldable pub Changed : (Inventory → Bool) → ℤ → List Inventory → List Inventory → Type 0
Changed p change before after =
    ((r : Inventory) × (find_first p before ≡ some r)
      × (pos 0 ≤ℤ r.quantity_scaled +ℤ change)
      × (after ≡ modify_first p (add_stock change) before))
    ⊎ ((r : Inventory) × (find_first p before ≡ none)
        × (p r ≡ true)
        × (r.quantity_scaled ≡ pos 0)
        × (pos 0 ≤ℤ r.quantity_scaled +ℤ change)
        × (after ≡ before ++ (add_stock change r ∷ [])))

module _ (m : Mongo) where
  stock_row_cases :
      (company branch product : ℕ) (change : ℤ) (s : Database m) {row : Inventory} {t : Database m}
      → stock_row m company branch product change s ≡ ok (row, t)
      → ((m.find_one (of_product company branch product) s.inventory ≡ some row) × (t ≡ s))
        ⊎ ((m.find_one (of_product company branch product) s.inventory ≡ none)
            × (of_product company branch product row ≡ true)
            × (row.quantity_scaled ≡ pos 0)
            × (t.inventory ≡ m.insert_one row s.inventory)
            × (t.movements ≡ s.movements))
  unfolding stock_row
  stock_row_cases company branch product change s h = ground arith

  pub record_movement_effect :
      (kind : MovementType) (company branch product : ℕ) (change : ℤ) (reference : Option ℕ)
      (user : ℕ) (s : Database m) {movement : Movement} {t : Database m}
      → record_movement m kind company branch product change reference user s ≡ ok (movement, t)
      → (decimal change ≡ ok movement.quantity_change)
        × (movement.movement_type ≡ kind)
        × (movement.branch_id ≡ branch)
        × (movement.product_id ≡ product)
        × (movement.company_id ≡ company)
        × (t.inventory ≡ s.inventory)
        × (t.movements ≡ m.insert_one movement s.movements)
  unfolding record_movement
  record_movement_effect kind company branch product change reference user s h = ground arith

  -- What a booked change has done to the rows and the movements of a product.
  pub record IsBooked (company branch product : ℕ) (change : ℤ) (s t : Database m)
      (movement : Movement) : Type 0 where
    pub stock_changed :
        Changed (of_product company branch product) change (m.docs s.inventory) (m.docs t.inventory)
    pub movement_added : m.docs t.movements ≡ m.docs s.movements ++ (movement ∷ [])
    pub text_of_change : decimal change ≡ ok movement.quantity_change
    pub of_branch : movement.branch_id ≡ branch
    pub of_item : movement.product_id ≡ product

  Changed-update :
      (p : Inventory → Bool) (change : ℤ) (c : m.Collection Inventory) (row : Inventory)
      → pos 0 ≤ℤ row.quantity_scaled +ℤ change
      → m.find_one p c ≡ some row
      → Changed p change (m.docs c) (m.docs (m.update_one p (add_stock change) c))
  unfolding Changed
  Changed-update p change c row enough found =
      inl (row, sym (m.find_one-eq p c) ∙ found, enough, m.docs-update_one p (add_stock change) c)

  Changed-insert :
      (p : Inventory → Bool) (change : ℤ) (c : m.Collection Inventory) (row : Inventory)
      → pos 0 ≤ℤ row.quantity_scaled +ℤ change
      → m.find_one p c ≡ none
      → p row ≡ true
      → row.quantity_scaled ≡ pos 0
      → Changed p change
          (m.docs c)
          (m.docs (m.update_one p (add_stock change) (m.insert_one row c)))
  unfolding Changed
  Changed-insert p change c row enough missing own empty =
      let none_before : find_first p (m.docs c) ≡ none = sym (m.find_one-eq p c) ∙ missing in
      inr (
        row,
        none_before,
        own,
        empty,
        enough,
        m.docs-update_one p (add_stock change) (m.insert_one row c)
            ∙ rw (m.docs-insert_one row c) (
                modify_first-append_none p (add_stock change) (m.docs c) (row ∷ []) none_before
                ∙ rw own),
      )

  book_stock_guard :
      (company branch product : ℕ) (change : ℤ) (user : ℕ) (row : Inventory) (s : Database m)
      {movement : Movement} {t : Database m}
      → book_stock m company branch product change user row s ≡ ok (movement, t)
      → (pos 0 ≤ℤ row.quantity_scaled +ℤ change)
        × (t.inventory
            ≡ m.update_one (of_product company branch product) (add_stock change) s.inventory)
        × (t.movements ≡ m.insert_one movement s.movements)
        × (decimal change ≡ ok movement.quantity_change)
        × (movement.branch_id ≡ branch)
        × (movement.product_id ≡ product)
  unfolding book_stock
  book_stock_guard company branch product change user row s h = ground (
    arith,
    record_movement_effect manual_adjustment company branch product change none user (record s {
      inventory = m.update_one (of_product company branch product) (add_stock change) s.inventory;
    }),
  )

  book_stock-IsBooked :
      (company branch product : ℕ) (change : ℤ) (user : ℕ) (row : Inventory) (s u : Database m)
      {movement : Movement} {t : Database m}
      → stock_row m company branch product change s ≡ ok (row, u)
      → book_stock m company branch product change user row u ≡ ok (movement, t)
      → IsBooked company branch product change s t movement
  book_stock-IsBooked company branch product change user row s u hr h =
      let p = of_product company branch product in
      let (enough, written, moved, text, own_branch, own_item) =
        book_stock_guard company branch product change user row u h in
      elim (stock_row_cases company branch product change s hr) [
        | inl (found, same) ↦ record {
          stock_changed = rw (written, same) (Changed-update p change s.inventory row enough found);
          movement_added = rw (moved, same) (m.docs-insert_one _ s.movements);
          text_of_change = text;
          of_branch = own_branch;
          of_item = own_item;
        }
        | inr (missing, own, empty, added, kept) ↦ record {
          stock_changed =
              rw (written, added)
                (Changed-insert p change s.inventory row enough missing own empty);
          movement_added = rw (moved, kept) (m.docs-insert_one _ s.movements);
          text_of_change = text;
          of_branch = own_branch;
          of_item = own_item;
        }
      ]

  apply_adjustment-IsBooked :
      (scope : Scope) (branch product : ℕ) (change : ℤ) (s : Database m) {movement : Movement}
      {t : Database m}
      → apply_adjustment m scope branch product change s ≡ ok (movement, t)
      → IsBooked scope.company.id branch product change s t movement
  unfolding apply_adjustment
  apply_adjustment-IsBooked scope branch product change s h =
      elim (>>=-eq-ok (authorized_branch m scope branch) _ s h) [
        | ran b s' authorized h' ↦
            elim (>>=-eq-ok
              (required_row m (active_product scope.company.id product) (λ s. s.products)) _ s'
              h') [
                | ran item u found h'' ↦
                    elim (>>=-eq-ok (stock_row m scope.company.id b.id item.id change) _ u h'') [
                      | ran row v got h3 ↦
                          let (same_branch, _, _, _, kept) =
                            authorized_branch_scope m scope branch s authorized in
                          let (passes, _, kept') =
                            required_row-holds m (active_product scope.company.id product)
                              (λ s. s.products) s' found in
                          let same_item : item.id ≡ product = ground arith in
                          let booked =
                            book_stock-IsBooked scope.company.id b.id item.id change scope.user.id
                              row u v got h3 in
                          rw same_branch at (rw same_item at (rw (kept' ∙ kept) at booked))
                    ]
              ]
      ]

  -- An adjustment that returns has booked the change that the request asks for, and only a manager makes one.
  pub adjust-IsBooked :
      (scope : Scope) (body : Adjustment) (s : Database m) {movement : Movement} {t : Database m}
      → adjust m scope body s ≡ ok (movement, t)
      → (change : ℤ) × (signed_change body.quantity_change ≡ ok change)
        × (change ≢ pos 0)
        × (managers scope.user.role ≡ true)
        × IsBooked scope.company.id body.branch_id body.product_id change s t movement
  unfolding adjust
  adjust-IsBooked scope body s {t = t} h =
      elim (Result-cases (signed_change body.quantity_change)) [
        | inl (e, refused) ↦ absurd (ground arith)
        | inr (change, read) ↦ (
          change,
          read,
          ground arith,
          ground arith,
          apply_adjustment-IsBooked scope body.branch_id body.product_id change s {t = t}
              (ground arith),
        )
      ]
