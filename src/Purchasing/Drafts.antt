-- ===== src/Purchasing/Drafts.antt =====
-- A draft is sound when it is saved (purchasing.ts).
use cafe_retail_software.Prelude.Int.{pos}
use cafe_retail_software.Money.{decimal}
use cafe_retail_software.Security.Isolation.{authorized_branch_scope}
use cafe_retail_software.Purchasing.Priced.{priced_line-IsConserved}
use cafe_retail_software.Inventory.{active_product}
use mathlib.Core.Path.{subst}
use cafe_retail_software.Result.{
  ok, ensure->>-eq-ok, ok-injective, >>=-eq-ok, ran, validation_error, lift->>=-eq-ok,
  invalid_state, reads,
}
use cafe_retail_software.Purchasing.{
  PurchaseBody, saved_order, is_draft, old_branch, active_supplier, old_supplier,
}
use cafe_retail_software.Purchasing.Lines.{LineInput, priced_line, sum_scaled}
use cafe_retail_software.Purchasing.Receipt.{IsConserved}
use cafe_retail_software.Security.{Scope, authorized_branch}
use cafe_retail_software.Prelude.{
  All, ℕ, Option, List, ◌≡◌, some, All-modify_first_value, ◌∷◌, not, includes, ◌&&◌, All-append,
  ◌==◌, none, true, ◌+◌, or_else, Bool, [], refl, ◌∙◌, leb, length, given_or,
}
use cafe_retail_software.Database.{
  Database, required_row->>=-eq-ok, found_row, purchase_counter, count_up,
}
use cafe_retail_software.Documents.Purchases.{PurchaseOrder, PurchaseItem}
use cafe_retail_software.Purchasing.Draft.{save_draft, draft_lines, base_order}
use cafe_retail_software.Mongo.{Mongo}

-- On every line, what arrived and what remains make up what was ordered.
abbrev pub IsSound : PurchaseOrder → Type 0
IsSound order = All IsConserved order.items

module _ (m : Mongo) where
  -- The orders that a step leaves, and the result it gives.
  abbrev pub Keeps : (s t : Database m) → PurchaseOrder → Type 0
  Keeps s t order = All IsSound (m.docs s.purchase_orders) → All IsSound (m.docs t.purchase_orders)

  draft_lines-IsConserved :
      (company supplier : ℕ) (seen : List ℕ) (next : ℕ) (inputs : List LineInput) (s : Database m)
      {lines : ℕ × List PurchaseItem} {t : Database m}
      → draft_lines m company supplier seen next inputs s ≡ ok (lines, t)
      → All IsConserved lines.1 × (t ≡ s)
  unfolding draft_lines
  draft_lines-IsConserved company supplier seen next [] s h =
      subst (λ p. All IsConserved p.0.1 × (p.1 ≡ s)) (ok-injective h) (tt, refl)
  draft_lines-IsConserved company supplier seen next (input ∷ inputs) s h =
      elim (required_row->>=-eq-ok m (active_product company input.product_id) (λ s. s.products) _ s
        h) [
          | found_row product passes one h1 ↦
              let (_, h2) =
                ensure->>-eq-ok
                  (not (includes product.id seen) && (product.supplier_id == supplier))
                  validation_error _ s h1 in
              elim (lift->>=-eq-ok (priced_line next product input) _ s h2) [
                | reads line priced h3 ↦
                    elim (>>=-eq-ok
                      (draft_lines m company supplier (product.id ∷ seen) (next + 1) inputs) _ s
                      h3) [
                        | ran rest u others h4 ↦
                            let (kept, same) =
                              draft_lines-IsConserved company supplier (product.id ∷ seen)
                                (next + 1) inputs s others in
                            subst (λ p. All IsConserved p.0.1 × (p.1 ≡ s)) (ok-injective h4)
                              ((priced_line-IsConserved next product input priced, kept), same)
                      ]
              ]
        ]

  updated-IsSound :
      (p : PurchaseOrder → Bool) (next : PurchaseOrder) (c : m.Collection PurchaseOrder)
      → IsSound next
      → All IsSound (m.docs c)
      → All IsSound (m.docs (m.update_one p (λ r. next) c))
  updated-IsSound p next c sound h =
      rw (m.docs-update_one p (λ r. next) c)
        (All-modify_first_value IsSound p next (m.docs c) sound h)

  inserted-IsSound :
      (next : PurchaseOrder) (c c' : m.Collection PurchaseOrder)
      → c' ≡ c
      → IsSound next
      → All IsSound (m.docs c)
      → All IsSound (m.docs (m.insert_one next c'))
  inserted-IsSound next c c' same sound h =
      rw (m.docs-insert_one next c', same) (All-append IsSound (m.docs c) (next ∷ []) h (sound, tt))

  base_order-Keeps :
      (scope : Scope) (old : Option PurchaseOrder) (values : PurchaseOrder) (s : Database m)
      {order : PurchaseOrder} {t : Database m}
      → base_order m scope old values s ≡ ok (order, t)
      → IsSound values
      → Keeps s t order
  unfolding base_order
  base_order-Keeps scope (some old) values s h sound =
      let next : PurchaseOrder = record values {
        id = old.id;
        status = old.status;
        version = old.version;
        created_by = old.created_by;
        approved_by = old.approved_by;
      } in
      subst (λ p. Keeps s p.1 p.0) (ok-injective h)
        (updated-IsSound (saved_order old.id scope.company.id) next s.purchase_orders sound)
  base_order-Keeps scope none values s h sound =
      subst (λ p. Keeps s p.1 p.0) (ok-injective h)
        (inserted-IsSound
          (record values { id = count_up purchase_counter s.counters purchase_counter })
          s.purchase_orders s.purchase_orders refl sound)

  pub save_draft-Keeps :
      (scope : Scope) (old : Option PurchaseOrder) (body : PurchaseBody) (s : Database m)
      {order : PurchaseOrder} {t : Database m}
      → save_draft m scope old body s ≡ ok (order, t)
      → Keeps s t order
  unfolding save_draft
  save_draft-Keeps scope old body s h =
      let (_, h1) =
        ensure->>-eq-ok (elim old [ none ↦ true | some r ↦ is_draft r.status ]) invalid_state _ s
          h in
      elim (>>=-eq-ok
        (authorized_branch m scope (or_else (given_or body.branch_id (old_branch old)) 0)) _ s h1) [
          | ran branch u authorized h2 ↦
              let (_, _, _, _, same) =
                authorized_branch_scope m scope
                  (or_else (given_or body.branch_id (old_branch old)) 0) s authorized in
              elim (required_row->>=-eq-ok m
                (active_supplier scope.company.id (given_or body.supplier_id (old_supplier old)))
                (λ s. s.suppliers) _ u h2) [
                  | found_row supplier passes one h3 ↦
                      let (_, h4) =
                        ensure->>-eq-ok (leb 1 (length body.items) && leb (length body.items) 100)
                          validation_error _ u h3 in
                      elim (>>=-eq-ok (draft_lines m scope.company.id supplier.id [] 1 body.items) _
                        u h4) [
                          | ran lines v priced h5 ↦
                              elim (lift->>=-eq-ok (decimal (pos lines.0)) _ v h5) [
                                | reads total printed h6 ↦
                                    elim (lift->>=-eq-ok
                                      (sum_scaled (λ i. i.quantity_ordered) lines.1) _ v h6) [
                                        | reads quantities summed h7 ↦
                                            elim (lift->>=-eq-ok (decimal (pos quantities)) _ v
                                              h7) [
                                                | reads text printed' h8 ↦
                                                    let (kept, same') =
                                                      draft_lines-IsConserved scope.company.id
                                                        supplier.id [] 1 body.items u priced in
                                                    rw (same' ∙ same) at
                                                      (base_order-Keeps scope old _ v h8 kept)
                                              ]
                                      ]
                              ]
                        ]
                ]
        ]
