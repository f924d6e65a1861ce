-- ===== src/Purchasing/Draft.antt =====
-- apps/web/src/server/purchasing.ts: a draft is made, or edited.
use cafe_retail_software.Prelude.Int.{pos}
use cafe_retail_software.Money.{decimal}
use cafe_retail_software.Inventory.{active_product}
use cafe_retail_software.Result.{
  Action, ◌>>◌, ensure, modify, pure, ◌>>=◌, require_value, invalid_state, lift,
}
use cafe_retail_software.Documents.Purchases.{PurchaseOrder, PurchaseItem, draft}
use cafe_retail_software.Prelude.{
  ℕ, Option, List, some, ◌∷◌, none, true, not, includes, or_else, ◌&&◌, ◌==◌, ◌+◌, [], leb, length,
  given_or,
}
use cafe_retail_software.Security.{Scope, authorized_branch}
use cafe_retail_software.Database.{next_id, Database, required_row, purchase_counter}
use cafe_retail_software.Purchasing.{
  is_draft, PurchaseBody, saved_order, old_branch, active_supplier, old_supplier,
}
use cafe_retail_software.Purchasing.Lines.{priced_line, sum_scaled, LineInput, no_quantity}
use cafe_retail_software.Mongo.{Mongo}

module _ (m : Mongo) where
  -- The lines of a draft and their total: the products seen so far, and the number of the next line.
  unfoldable pub draft_lines :
      ℕ → ℕ → List ℕ → ℕ → List LineInput → Action (Database m) (ℕ × List PurchaseItem)
  unfolding priced_line
  draft_lines company supplier seen next [] = pure (0, [])
  draft_lines company supplier seen next (input ∷ inputs) = do
    product ← required_row m (active_product company input.product_id) (λ s. s.products)
    require_value (not (includes product.id seen) && (product.supplier_id == supplier))
    line ← lift (priced_line next product input)
    rest ← draft_lines company supplier (product.id ∷ seen) (next + 1) inputs
    pure (line.0 + rest.0, line.1 ∷ rest.1)

  -- The row of a new order, or the one that is edited.
  unfoldable pub base_order :
      Scope → Option PurchaseOrder → PurchaseOrder → Action (Database m) PurchaseOrder
  unfolding next_id
  base_order scope (some old) values = do
    let next : PurchaseOrder = record values {
      id = old.id;
      status = old.status;
      version = old.version;
      created_by = old.created_by;
      approved_by = old.approved_by;
    }
    modify (λ s. record s {
      purchase_orders =
          m.update_one (saved_order old.id scope.company.id) (λ r. next) s.purchase_orders;
    })
    pure next
  base_order scope none values = do
    id ← next_id m purchase_counter
    let next : PurchaseOrder = record values { id = id }
    modify (λ s. record s { purchase_orders = m.insert_one next s.purchase_orders })
    pure next

  unfoldable pub save_draft :
      Scope → Option PurchaseOrder → PurchaseBody → Action (Database m) PurchaseOrder
  unfolding draft_lines base_order is_draft sum_scaled given_or
  save_draft scope old body = do
    ensure (elim old [ none ↦ true | some r ↦ is_draft r.status ]) invalid_state
    let branch_id : Option ℕ = given_or body.branch_id (old_branch old)
    branch ← authorized_branch m scope (or_else branch_id 0)
    supplier ←
        required_row m
          (active_supplier scope.company.id (given_or body.supplier_id (old_supplier old)))
          (λ s. s.suppliers)
    require_value (leb 1 (length body.items) && leb (length body.items) 100)
    lines ← draft_lines scope.company.id supplier.id [] 1 body.items
    total ← lift (decimal (pos lines.0))
    quantities ← lift (sum_scaled (λ i. i.quantity_ordered) lines.1)
    quantity_text ← lift (decimal (pos quantities))
    base_order scope old (record {
      id = 0;
      company_id = scope.company.id;
      branch_id = branch.id;
      supplier_id = supplier.id;
      status = draft;
      items = lines.1;
      total_amount = total;
      total_quantity_ordered = quantity_text;
      total_quantity_received = no_quantity;
      version = 1;
      created_by = scope.user.id;
      approved_by = none;
    })
