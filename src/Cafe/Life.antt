-- ===== src/Cafe/Life.antt =====
-- The life of a cafe order (cafe.ts, `transitions`).
use mathlib.Core.Path.{subst}
use cafe_retail_software.Money.{trimmed_length}
use cafe_retail_software.Result.{
  ok, ensure->>-eq-ok, version_conflict, validation_error, forbidden, Result, ok-injective,
}
use cafe_retail_software.Database.{Database}
use cafe_retail_software.Security.{Scope, managers, audited, audit_lem}
use cafe_retail_software.Cafe.Handling.{set_items, act_on_row, acted_order, OrderChange}
use cafe_retail_software.Documents.Cafe.{
  OrderStatus, OrderItem, placed, accepted, Order, preparing, ready, rejected, served,
  bill_requested, cancelled, billed, closed,
}
use cafe_retail_software.Cafe.{
  OrderAction, starts_from, is_placed, accept, ends_order, cancel, item_status, leads_to, reject,
  is_cancel, start_preparing, mark_ready, serve, may_act, request_bill,
}
use cafe_retail_software.Prelude.{
  Option, ℕ, not, ◌≡◌, opt_eq, List, is_some, some, true, arith, none, All, refl, ◌+◌, ◌∷◌, [],
  modify_first, ◌&&◌, ◌==◌, ◌||◌, false, leb,
}
use cafe_retail_software.Mongo.{Mongo}

-- The steps of an order's status.
pub data OrderStep : OrderAction → OrderStatus → OrderStatus → Type 0 where
  accept_placed : OrderStep accept placed accepted
  reject_placed : OrderStep reject placed rejected
  prepare_accepted : OrderStep start_preparing accepted preparing
  finish_preparing : OrderStep mark_ready preparing ready
  serve_accepted : OrderStep serve accepted served
  serve_ready : OrderStep serve ready served
  bill_accepted : OrderStep request_bill accepted bill_requested
  bill_served : OrderStep request_bill served bill_requested
  cancel_placed : OrderStep cancel placed cancelled
  cancel_accepted : OrderStep cancel accepted cancelled
  cancel_preparing : OrderStep cancel preparing cancelled
  cancel_ready : OrderStep cancel ready cancelled
  cancel_served : OrderStep cancel served cancelled

starts_from-OrderStep :
    (action : OrderAction) (old : OrderStatus)
    → starts_from action old ≡ true
    → OrderStep action old (leads_to action)
unfolding starts_from
starts_from-OrderStep accept placed h = accept_placed
starts_from-OrderStep accept accepted h = ground arith
starts_from-OrderStep accept preparing h = ground arith
starts_from-OrderStep accept ready h = ground arith
starts_from-OrderStep accept served h = ground arith
starts_from-OrderStep accept bill_requested h = ground arith
starts_from-OrderStep accept rejected h = ground arith
starts_from-OrderStep accept cancelled h = ground arith
starts_from-OrderStep accept billed h = ground arith
starts_from-OrderStep accept closed h = ground arith
starts_from-OrderStep reject placed h = reject_placed
starts_from-OrderStep reject accepted h = ground arith
starts_from-OrderStep reject preparing h = ground arith
starts_from-OrderStep reject ready h = ground arith
starts_from-OrderStep reject served h = ground arith
starts_from-OrderStep reject bill_requested h = ground arith
starts_from-OrderStep reject rejected h = ground arith
starts_from-OrderStep reject cancelled h = ground arith
starts_from-OrderStep reject billed h = ground arith
starts_from-OrderStep reject closed h = ground arith
starts_from-OrderStep start_preparing placed h = ground arith
starts_from-OrderStep start_preparing accepted h = prepare_accepted
starts_from-OrderStep start_preparing preparing h = ground arith
starts_from-OrderStep start_preparing ready h = ground arith
starts_from-OrderStep start_preparing served h = ground arith
starts_from-OrderStep start_preparing bill_requested h = ground arith
starts_from-OrderStep start_preparing rejected h = ground arith
starts_from-OrderStep start_preparing cancelled h = ground arith
starts_from-OrderStep start_preparing billed h = ground arith
starts_from-OrderStep start_preparing closed h = ground arith
starts_from-OrderStep mark_ready placed h = ground arith
starts_from-OrderStep mark_ready accepted h = ground arith
starts_from-OrderStep mark_ready preparing h = finish_preparing
starts_from-OrderStep mark_ready ready h = ground arith
starts_from-OrderStep mark_ready served h = ground arith
starts_from-OrderStep mark_ready bill_requested h = ground arith
starts_from-OrderStep mark_ready rejected h = ground arith
starts_from-OrderStep mark_ready cancelled h = ground arith
starts_from-OrderStep mark_ready billed h = ground arith
starts_from-OrderStep mark_ready closed h = ground arith
starts_from-OrderStep serve placed h = ground arith
starts_from-OrderStep serve accepted h = serve_accepted
starts_from-OrderStep serve preparing h = ground arith
starts_from-OrderStep serve ready h = serve_ready
starts_from-OrderStep serve served h = ground arith
starts_from-OrderStep serve bill_requested h = ground arith
starts_from-OrderStep serve rejected h = ground arith
starts_from-OrderStep serve cancelled h = ground arith
starts_from-OrderStep serve billed h = ground arith
starts_from-OrderStep serve closed h = ground arith
starts_from-OrderStep request_bill placed h = ground arith
starts_from-OrderStep request_bill accepted h = bill_accepted
starts_from-OrderStep request_bill preparing h = ground arith
starts_from-OrderStep request_bill ready h = ground arith
starts_from-OrderStep request_bill served h = bill_served
starts_from-OrderStep request_bill bill_requested h = ground arith
starts_from-OrderStep request_bill rejected h = ground arith
starts_from-OrderStep request_bill cancelled h = ground arith
starts_from-OrderStep request_bill billed h = ground arith
starts_from-OrderStep request_bill closed h = ground arith
starts_from-OrderStep cancel placed h = cancel_placed
starts_from-OrderStep cancel accepted h = cancel_accepted
starts_from-OrderStep cancel preparing h = cancel_preparing
starts_from-OrderStep cancel ready h = cancel_ready
starts_from-OrderStep cancel served h = cancel_served
starts_from-OrderStep cancel bill_requested h = ground arith
starts_from-OrderStep cancel rejected h = ground arith
starts_from-OrderStep cancel cancelled h = ground arith
starts_from-OrderStep cancel billed h = ground arith
starts_from-OrderStep cancel closed h = ground arith

-- What an action has done to an order that a request read.
pub record IsHandled (action : OrderAction) (scope : Scope) (body : OrderChange) (row next : Order)
    (before after : List Order) : Type 0 where
  pub step : OrderStep action row.status next.status
  pub current : body.expected_version ≡ some row.version
  pub one_version : next.version ≡ row.version + 1
  pub written :
      after ≡ modify_first (λ r. r.id == row.id) (acted_order action scope.user.id row) before
  pub items : All (λ i. ends_order action ≡ true → i.status ≡ next.status) next.items
  pub permitted : may_act action scope.user.role ≡ true
  pub by_manager :
      is_cancel action ≡ true → is_placed row.status ≡ false → managers scope.user.role ≡ true
  pub unbilled : row.billed_invoice_id ≡ none

item_status_ended :
    (action : OrderAction) (old : OrderStatus)
    → ends_order action ≡ true
    → item_status action old ≡ leads_to action
item_status_ended reject old h = refl
item_status_ended cancel old h = refl
item_status_ended accept old h = ground arith
item_status_ended start_preparing old h = ground arith
item_status_ended mark_ready old h = ground arith
item_status_ended serve old h = ground arith
item_status_ended request_bill old h = ground arith

pub opt_eq-eq : (n : ℕ) (o : Option ℕ) → opt_eq (some n) o ≡ true → o ≡ some n
opt_eq-eq n none h = ground arith
opt_eq-eq n (some k) h = ground arith

pub not_some : (o : Option ℕ) → not (is_some o) ≡ true → o ≡ none
not_some none h = refl
not_some (some k) h = ground arith

set_items_ended :
    (action : OrderAction) (items : List OrderItem)
    → All (λ i. ends_order action ≡ true → i.status ≡ leads_to action) (set_items action items)
unfolding set_items
set_items_ended action [] = tt
set_items_ended action (i ∷ items) =
    (item_status_ended action i.status, set_items_ended action items)

module _ (m : Mongo) where
  -- An action on an order that returns has taken the order one step of its life. The request named the version
  -- that is stored, which is counted up, only that order is written, every item of a rejected or cancelled order
  -- is so too, the user's role may take the action, only a manager cancels an order that was accepted, and the
  -- order was on no invoice.
  pub act_on_row-IsHandled :
      (action : OrderAction) (scope : Scope) (body : OrderChange) (row : Order) (s : Database m)
      {next : Order} {t : Database m}
      → act_on_row m action scope body row s ≡ ok (next, t)
      → IsHandled action scope body row next (m.docs s.orders) (m.docs t.orders)
  unfolding act_on_row acted_order
  act_on_row-IsHandled action scope body row s {next = next} {t = t} h =
      let (fresh, h1) =
        ensure->>-eq-ok (opt_eq (some row.version) body.expected_version) version_conflict _ s h in
      let (starts, h2) = ensure->>-eq-ok (starts_from action row.status) validation_error _ s h1 in
      let (permits, h3) = ensure->>-eq-ok (may_act action scope.user.role) forbidden _ s h2 in
      let (reasoned, h4) =
        ensure->>-eq-ok (not (ends_order action) || leb 3 (trimmed_length body.reason))
          validation_error _ s h3 in
      let (by_manager, h5) =
        ensure->>-eq-ok
          (not (is_cancel action && not (is_placed row.status)) || managers scope.user.role)
          forbidden _ s h4 in
      let (unbilled, h6) =
        ensure->>-eq-ok (not (is_some row.billed_invoice_id)) validation_error _ s h5 in
      let s' : Database m = record s {
        orders = m.update_one (λ r. r.id == row.id) (acted_order action scope.user.id row) s.orders;
      } in
      let done : ◌≡◌ {A = Result (Order × Database m)}
          (ok (acted_order action scope.user.id row row, audited m scope row.id s'))
          (ok (next, t)) =
        ground (arith, audit_lem m scope row.id s') in
      subst (λ p. IsHandled action scope body row p.0 (m.docs s.orders) (m.docs p.1.orders))
        (ok-injective done)
        (record {
          step = starts_from-OrderStep action row.status starts;
          current = opt_eq-eq row.version body.expected_version fresh;
          one_version = refl;
          written = m.docs-update_one _ _ s.orders;
          items = set_items_ended action row.items;
          permitted = permits;
          by_manager = λ e n. ground arith;
          unbilled = not_some row.billed_invoice_id unbilled;
        })
