-- ===== src/Inventory.antt =====
-- apps/web/src/server/inventory.ts, `adjust`: a manual change of the stock of one product in one branch.
pub mod Booked
pub mod Stock
use cafe_retail_software.Security.{Scope, allow, authorized_branch, managers}
use cafe_retail_software.Documents.{Inventory, Product, MovementType, Movement, manual_adjustment}
use cafe_retail_software.Result.{
  Result, Action, ◌>>=◌, ◌>>◌, modify, pure, gets, map_ok, require_value, lift, required, not_found,
  ensure, insufficient_stock,
}
use cafe_retail_software.Prelude.Int.{ℤ, ◌+ℤ◌, pos, neg, ltb_ℤ, nat_abs}
use cafe_retail_software.Database.{
  next_id, Database, inventory_counter, movement_counter, required_row,
}
use cafe_retail_software.Money.{Text, scaled, decimal, trimmed_length}
use cafe_retail_software.Prelude.{
  ℕ, Bool, ◌==◌, ◌&&◌, false, some, if◌then◌else◌, Option, leb, not, none, ◌∷◌, [],
}
use cafe_retail_software.Mongo.{Mongo}

-- The request's body; `quantity_change` is `String(body.quantity_change)`.
pub record Adjustment : Type 0 where
  pub branch_id : ℕ
  pub product_id : ℕ
  pub reason : Text
  pub quantity_change : Text

abbrev pub has_minus : Text → Bool
has_minus [] = false
has_minus (c ∷ t) = c == b'-'

-- `raw.replace(/^-/, "")`
abbrev pub drop_minus : Text → Text
drop_minus [] = []
drop_minus (c ∷ t) = if c == b'-' then t else c ∷ t

-- A decimal, with or without a minus in front of it.
unfoldable pub signed_change : Text → Result ℤ
signed_change raw =
    map_ok (λ n. if has_minus raw then neg (pos n) else pos n) (scaled (drop_minus raw))

abbrev pub of_product : ℕ → ℕ → ℕ → Inventory → Bool
of_product company branch product r =
    (r.company_id == company) && (r.branch_id == branch) && (r.product_id == product)

abbrev pub add_stock : ℤ → Inventory → Inventory
add_stock change r = record r { quantity_scaled = r.quantity_scaled +ℤ change }

abbrev pub active_product : ℕ → ℕ → Product → Bool
active_product company id p = (p.id == id) && (p.company_id == company) && p.is_active

module _ (m : Mongo) where
  -- The row of a product that has none yet, with nothing in stock.
  unfoldable pub new_stock : ℕ → ℕ → ℕ → Action (Database m) Inventory
  unfolding next_id
  new_stock company branch product = do
    id ← next_id m inventory_counter
    let row : Inventory = record {
      id = id;
      company_id = company;
      branch_id = branch;
      product_id = product;
      quantity_scaled = pos 0;
      on_order_scaled = pos 0;
    }
    modify (λ s. record s { inventory = m.insert_one row s.inventory })
    pure row

  -- The row of a product: the one that is there, or a new one if the change is not negative.
  pub stock_row : ℕ → ℕ → ℕ → ℤ → Action (Database m) Inventory
  unfolding new_stock
  stock_row company branch product change = do
    found ← gets (λ s. m.find_one (of_product company branch product) s.inventory)
    elim found [
      | some row ↦ pure row
      | none ↦ require_value (ltb_ℤ (pos 0) change) >> new_stock company branch product
    ]

  unfoldable pub record_movement :
      MovementType → ℕ → ℕ → ℕ → ℤ → Option ℕ → ℕ → Action (Database m) Movement
  unfolding next_id
  record_movement kind company branch product change reference user = do
    id ← next_id m movement_counter
    text ← lift (decimal change)
    let movement : Movement = record {
      id = id;
      company_id = company;
      branch_id = branch;
      product_id = product;
      movement_type = kind;
      quantity_change = text;
      reference_id = reference;
      created_by = user;
    }
    modify (λ s. record s { movements = m.insert_one movement s.movements })
    pure movement

  -- The change is booked on the row, unless it would make the stock negative.
  pub book_stock : ℕ → ℕ → ℕ → ℤ → ℕ → Inventory → Action (Database m) Movement
  unfolding record_movement
  book_stock company branch product change user row = do
    ensure (not (ltb_ℤ (row.quantity_scaled +ℤ change) (pos 0))) insufficient_stock
    modify (λ s. record s {
      inventory = m.update_one (of_product company branch product) (add_stock change) s.inventory;
    })
    record_movement manual_adjustment company branch product change none user

  -- What the transaction does once the change is read.
  pub apply_adjustment : Scope → ℕ → ℕ → ℤ → Action (Database m) Movement
  unfolding stock_row book_stock
  apply_adjustment scope branch_id product_id change = do
    branch ← authorized_branch m scope branch_id
    product ← required_row m (active_product scope.company.id product_id) (λ s. s.products)
    row ← stock_row scope.company.id branch.id product.id change
    book_stock scope.company.id branch.id product.id change scope.user.id row

  unfoldable pub adjust : Scope → Adjustment → Action (Database m) Movement
  unfolding apply_adjustment
  adjust scope body = do
    allow scope.user managers
    require_value (leb 3 (trimmed_length body.reason))
    change ← lift (signed_change body.quantity_change)
    require_value (not (nat_abs change == 0))
    apply_adjustment scope body.branch_id body.product_id change
