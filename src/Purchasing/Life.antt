-- ===== src/Purchasing/Life.antt =====
-- The life of a purchase order (purchasing.ts, `transitions`).
use cafe_retail_software.Purchasing.Moves.{move_lines_keeps}
use cafe_retail_software.Money.{decimal}
use cafe_retail_software.Purchasing.Lines.{some_remaining, sum_scaled}
use mathlib.Core.Path.{subst}
use cafe_retail_software.Result.{
  ok, >>=-eq-ok, lift->>=-eq-ok, ran, ok-injective, Result-cases, ensure->>-eq-ok, reads,
  invalid_state, forbidden,
}
use cafe_retail_software.Database.{Database}
use cafe_retail_software.Prelude.Int.{pos}
use cafe_retail_software.Purchasing.Receipt.{IsConserved, receive_lines-IsConserved}
use cafe_retail_software.Security.{Scope, owners}
use cafe_retail_software.Prelude.{
  ◌≡◌, Bool, true, List, arith, ◌+◌, if◌then◌else◌, modify_first, false, All, inl, not, inr,
  Bool-cases, leb, ◌||◌, length, ◌&&◌, [], refl,
}
use cafe_retail_software.Documents.Purchases.{
  PurchaseStatus, PurchaseOrder, draft, pending_approval, ordered, cancelled, approved,
  partially_received, received, PurchaseItem,
}
use cafe_retail_software.Purchasing.Actions.{next_status, act_on_order, entered_lines, move_lines}
use cafe_retail_software.Purchasing.{
  is_draft, is_open, starts_from, is_ordered, PurchaseAction, is_approved, submit, is_pending,
  receive, mark_ordered, cancel, approve, saved_order, for_owner, PurchaseBody,
}
use cafe_retail_software.Mongo.{Mongo}

-- The steps of an order's status.
pub data PurchaseStep : PurchaseAction → PurchaseStatus → PurchaseStatus → Type 0 where
  submit_draft : PurchaseStep submit draft pending_approval
  approve_pending : PurchaseStep approve pending_approval approved
  order_approved : PurchaseStep mark_ordered approved ordered
  cancel_draft : PurchaseStep cancel draft cancelled
  cancel_pending : PurchaseStep cancel pending_approval cancelled
  cancel_approved : PurchaseStep cancel approved cancelled
  cancel_ordered : PurchaseStep cancel ordered cancelled
  cancel_partial : PurchaseStep cancel partially_received cancelled
  receive_first : PurchaseStep receive ordered partially_received
  receive_more : PurchaseStep receive partially_received partially_received
  receive_all : PurchaseStep receive ordered received
  receive_rest : PurchaseStep receive partially_received received

cancel_step : (old : PurchaseStatus) → is_open old ≡ true → PurchaseStep cancel old cancelled
unfolding is_open
cancel_step draft h = cancel_draft
cancel_step pending_approval h = cancel_pending
cancel_step approved h = cancel_approved
cancel_step ordered h = cancel_ordered
cancel_step partially_received h = cancel_partial
cancel_step received h = ground arith
cancel_step cancelled h = ground arith

submit_step :
    (old : PurchaseStatus) → is_draft old ≡ true → PurchaseStep submit old pending_approval
unfolding is_draft
submit_step draft h = submit_draft
submit_step pending_approval h = ground arith
submit_step approved h = ground arith
submit_step ordered h = ground arith
submit_step partially_received h = ground arith
submit_step received h = ground arith
submit_step cancelled h = ground arith

approve_step : (old : PurchaseStatus) → is_pending old ≡ true → PurchaseStep approve old approved
approve_step pending_approval h = approve_pending
approve_step draft h = ground arith
approve_step approved h = ground arith
approve_step ordered h = ground arith
approve_step partially_received h = ground arith
approve_step received h = ground arith
approve_step cancelled h = ground arith

order_step : (old : PurchaseStatus) → is_approved old ≡ true → PurchaseStep mark_ordered old ordered
order_step approved h = order_approved
order_step draft h = ground arith
order_step pending_approval h = ground arith
order_step ordered h = ground arith
order_step partially_received h = ground arith
order_step received h = ground arith
order_step cancelled h = ground arith

receive_step :
    (old : PurchaseStatus) (some_left : Bool)
    → is_ordered old ≡ true
    → PurchaseStep receive old (if some_left then partially_received else received)
unfolding is_ordered
receive_step ordered true h = receive_first
receive_step ordered false h = receive_all
receive_step partially_received true h = receive_more
receive_step partially_received false h = receive_rest
receive_step draft some_left h = ground arith
receive_step pending_approval some_left h = ground arith
receive_step approved some_left h = ground arith
receive_step received some_left h = ground arith
receive_step cancelled some_left h = ground arith

next_status-PurchaseStep :
    (action : PurchaseAction) (old : PurchaseStatus) (items : List PurchaseItem)
    {next : PurchaseStatus}
    → starts_from action old ≡ true
    → next_status action items ≡ ok next
    → PurchaseStep action old next
unfolding starts_from next_status
next_status-PurchaseStep submit old items h e =
    subst (PurchaseStep submit old) (ok-injective e) (submit_step old h)
next_status-PurchaseStep approve old items h e =
    subst (PurchaseStep approve old) (ok-injective e) (approve_step old h)
next_status-PurchaseStep mark_ordered old items h e =
    subst (PurchaseStep mark_ordered old) (ok-injective e) (order_step old h)
next_status-PurchaseStep cancel old items h e =
    subst (PurchaseStep cancel old) (ok-injective e) (cancel_step old h)
next_status-PurchaseStep receive old items h e = elim (Result-cases (some_remaining items)) [
  | inl (x, failed) ↦ ground arith
  | inr (some_left, done) ↦
      subst (PurchaseStep receive old) (ok-injective (rw done at e)) (receive_step old some_left h)
]

-- What every action keeps of an order, and how its status moves.
pub record IsActedOn (action : PurchaseAction) (scope : Scope) (order next : PurchaseOrder)
    (before after : List PurchaseOrder) : Type 0 where
  pub step : PurchaseStep action order.status next.status
  pub one_version : next.version ≡ order.version + 1
  pub written : after ≡ modify_first (saved_order order.id scope.company.id) (λ r. next) before
  pub by_owner : for_owner action order.status ≡ true → owners scope.user.role ≡ true
  pub conserved : All IsConserved order.items → All IsConserved next.items

module _ (m : Mongo) where
  entered_lines-IsConserved :
      (action : PurchaseAction) (order : PurchaseOrder) (body : PurchaseBody)
      {items : List PurchaseItem}
      → entered_lines action order body ≡ ok items
      → All IsConserved order.items
      → All IsConserved items
  unfolding entered_lines
  entered_lines-IsConserved receive order body h c =
      elim (Bool-cases
        (leb 1 (length body.receipts) && leb (length body.receipts) (length order.items))) [
          | inl fits ↦ (receive_lines-IsConserved [] order.items body.receipts (rw fits at h) c).0
          | inr not_fit ↦ absurd (ground arith)
        ]
  entered_lines-IsConserved submit order body h c = subst (All IsConserved) (ok-injective h) c
  entered_lines-IsConserved approve order body h c = subst (All IsConserved) (ok-injective h) c
  entered_lines-IsConserved cancel order body h c = subst (All IsConserved) (ok-injective h) c
  entered_lines-IsConserved mark_ordered order body h c = subst (All IsConserved) (ok-injective h) c

  -- An action on an order that returns has taken the order one step of its life, that its status allows and,
  -- for an approval or the cancellation of an approved order, only for an owner or a company's admin. It counts
  -- the version up by one, writes no other order, and keeps on each line that what arrived and what remains
  -- make up what was ordered.
  pub act_on_order-IsActedOn :
      (action : PurchaseAction) (scope : Scope) (body : PurchaseBody) (order : PurchaseOrder)
      (s : Database m) {next : PurchaseOrder} {t : Database m}
      → act_on_order m action scope body order s ≡ ok (next, t)
      → IsActedOn action scope order next (m.docs s.purchase_orders) (m.docs t.purchase_orders)
  unfolding act_on_order
  act_on_order-IsActedOn action scope body order s h =
      let (starts, h1) = ensure->>-eq-ok (starts_from action order.status) invalid_state _ s h in
      let (owner, h2) =
        ensure->>-eq-ok (not (for_owner action order.status) || owners scope.user.role) forbidden _
          s h1 in
      elim (lift->>=-eq-ok (entered_lines action order body) _ s h2) [
        | reads entered read h3 ↦
            elim (>>=-eq-ok (move_lines m action scope order entered) _ s h3) [
              | ran items u moved h4 ↦ elim (lift->>=-eq-ok (next_status action items) _ u h4) [
                | reads status led h5 ↦
                    elim (lift->>=-eq-ok (sum_scaled (λ i. i.quantity_received) items) _ u h5) [
                      | reads total summed h6 ↦ elim (lift->>=-eq-ok (decimal (pos total)) _ u h6) [
                        | reads text printed h7 ↦
                            let (same, keeps) =
                              move_lines_keeps m action scope order entered s moved in
                            subst
                              (λ p.
                                IsActedOn action scope order p.0 (m.docs s.purchase_orders)
                                  (m.docs p.1.purchase_orders))
                              (ok-injective h7)
                              (record {
                                step =
                                    next_status-PurchaseStep action order.status items starts led;
                                one_version = refl;
                                written = rw same (m.docs-update_one _ _ s.purchase_orders);
                                by_owner = λ e. ground arith;
                                conserved =
                                    λ c. keeps (entered_lines-IsConserved action order body read c);
                              })
                      ]
                    ]
              ]
            ]
      ]
