-- ===== src/Purchasing/Orders.antt =====
-- All purchase orders (purchasing.ts): no request loses or invents goods.
use cafe_retail_software.Purchasing.Drafts.{Keeps, IsSound, save_draft-Keeps}
use cafe_retail_software.Documents.Operations.{Outcome}
use cafe_retail_software.Replay.{RequestKey, replay_keeps}
use cafe_retail_software.Purchasing.Life.{act_on_order-IsActedOn}
use cafe_retail_software.Purchasing.Actions.{act_on_order}
use cafe_retail_software.Purchasing.Handler.{
  change_order, purchases, saved_result, purchase_work, finish_purchase,
}
use mathlib.Core.Path.{subst}
use cafe_retail_software.Result.{
  ok, ensure->>-eq-ok, ok-injective, >>=-eq-ok, ran, validation_error, forbidden,
}
use cafe_retail_software.Purchasing.{
  PurchaseBody, saved_order, PurchaseAction, order_in_scope, Method, is_supported,
}
use cafe_retail_software.Security.{Scope, managers}
use cafe_retail_software.Prelude.{
  All, ℕ, Option, ◌≡◌, some, All-modify_first_value, arith, none, sym, find_first, ◌∙◌,
  find_first-All, ap,
}
use cafe_retail_software.Database.{Database, required_row->>=-eq-ok, found_row}
use cafe_retail_software.Documents.Purchases.{PurchaseOrder}
use cafe_retail_software.Mongo.{Mongo}

module _ (m : Mongo) where
  order-Keeps :
      (action : PurchaseAction) (scope : Scope) (body : PurchaseBody) (order : PurchaseOrder)
      (s : Database m) {next : PurchaseOrder} {t : Database m}
      → act_on_order m action scope body order s ≡ ok (next, t)
      → (id : ℕ) → find_first (order_in_scope scope id) (m.docs s.purchase_orders) ≡ some order
      → Keeps m s t next
  order-Keeps action scope body order s {next = next} h id found c =
      let acted = act_on_order-IsActedOn m action scope body order s h in
      rw acted.written (
        All-modify_first_value IsSound (saved_order order.id scope.company.id) next
          (m.docs s.purchase_orders)
          (acted.conserved
            (find_first-All IsSound (order_in_scope scope id) (m.docs s.purchase_orders) c found))
          c)

  change_order-Keeps :
      (scope : Scope) (id : Option ℕ) (action : Option PurchaseAction) (body : PurchaseBody)
      (s : Database m) {order : PurchaseOrder} {t : Database m}
      → change_order m scope id action body s ≡ ok (order, t)
      → Keeps m s t order
  unfolding change_order
  change_order-Keeps scope none action body s h = save_draft-Keeps m scope none body s h
  change_order-Keeps scope (some id) none body s h =
      elim (required_row->>=-eq-ok m (order_in_scope scope id) (λ s. s.purchase_orders) _ s h) [
        | found_row order passes one h1 ↦ save_draft-Keeps m scope (some order) body s h1
      ]
  change_order-Keeps scope (some id) (some action) body s h =
      elim (required_row->>=-eq-ok m (order_in_scope scope id) (λ s. s.purchase_orders) _ s h) [
        | found_row order passes one h1 ↦
            order-Keeps action scope body order s h1 id
              ((sym (m.find_one-eq (order_in_scope scope id) s.purchase_orders) ∙ one))
      ]

  saved_result_keeps :
      (key : Option RequestKey) (s : Database m) {old : Option Outcome} {t : Database m}
      → saved_result m key s ≡ ok (old, t)
      → t.purchase_orders ≡ s.purchase_orders
  unfolding saved_result
  saved_result_keeps none s h = ground arith
  saved_result_keeps (some key) s h = ap (λ u. u.purchase_orders) (replay_keeps m key s h)

  finish_purchase_keeps :
      (scope : Scope) (key : Option RequestKey) (order : PurchaseOrder) (s : Database m)
      {result : Outcome} {t : Database m}
      → finish_purchase m scope key order s ≡ ok (result, t)
      → t.purchase_orders ≡ s.purchase_orders
  unfolding finish_purchase
  finish_purchase_keeps scope none order s h = sym (ap (λ p. p.1.purchase_orders) (ok-injective h))
  finish_purchase_keeps scope (some key) order s h =
      sym (ap (λ p. p.1.purchase_orders) (ok-injective h))

  purchase_work-IsSound :
      (scope : Scope) (key : Option RequestKey) (id : Option ℕ) (action : Option PurchaseAction)
      (body : PurchaseBody) (old : Option Outcome) (s : Database m) {result : Outcome}
      {t : Database m}
      → purchase_work m scope key id action body old s ≡ ok (result, t)
      → All IsSound (m.docs s.purchase_orders)
      → All IsSound (m.docs t.purchase_orders)
  unfolding purchase_work
  purchase_work-IsSound scope key id action body (some old) s h c =
      subst (λ p. All IsSound (m.docs p.1.purchase_orders)) (ok-injective h) c
  purchase_work-IsSound scope key id action body none s h c =
      elim (>>=-eq-ok (change_order m scope id action body) _ s h) [
        | ran order u changed h1 ↦
            rw (finish_purchase_keeps scope key order u h1)
              (change_order-Keeps scope id action body s changed c)
      ]

  -- A request to `purchases` that returns keeps on every line of every order that what arrived and what remains
  -- make up what was ordered, whether it makes or edits a draft, acts on an order or is a repeated one.
  pub purchases-IsSound :
      (scope : Scope) (key : Option RequestKey) (id : Option ℕ) (action : Option PurchaseAction)
      (method : Method) (body : PurchaseBody) (s : Database m) {result : Outcome} {t : Database m}
      → purchases m scope key id action method body s ≡ ok (result, t)
      → All IsSound (m.docs s.purchase_orders)
      → All IsSound (m.docs t.purchase_orders)
  unfolding purchases
  purchases-IsSound scope key id action method body s h c =
      let (_, h1) = ensure->>-eq-ok (managers scope.user.role) forbidden _ s h in
      let (_, h2) = ensure->>-eq-ok (is_supported id action method) validation_error _ s h1 in
      elim (>>=-eq-ok (saved_result m key) _ s h2) [
        | ran old u replayed h3 ↦
            purchase_work-IsSound scope key id action body old u h3
              (rw (saved_result_keeps key s replayed) c)
      ]
