-- ===== src/Cafe/Handling.antt =====
-- apps/web/src/server/cafe.ts: the actions on an order, from its acceptance to its bill.
use cafe_retail_software.Database.{Database, required_row}
use cafe_retail_software.Documents.Cafe.{OrderItem, Order}
use cafe_retail_software.Money.{Text, trimmed_length}
use cafe_retail_software.Result.{
  Action, ◌>>◌, ensure, require_value, forbidden, ◌>>=◌, modify, pure,
}
use cafe_retail_software.Security.{Scope, audit, sellers, managers, in_scope, allow}
use cafe_retail_software.Cafe.{
  kitchen_roles, OrderAction, starts_from, may_act, leads_to, item_status, accepter, check_version,
  cafe_only, is_kitchen, ends_order, is_cancel, is_placed,
}
use cafe_retail_software.Prelude.{
  Option, ℕ, List, ◌∷◌, Bool, [], ◌+◌, ◌&&◌, ◌==◌, ◌||◌, not, leb, is_some,
}
use cafe_retail_software.Mongo.{Mongo}

-- The request's body.
pub record OrderChange : Type 0 where
  pub expected_version : Option ℕ
  pub reason : Text

abbrev pub order_named : Scope → ℕ → Order → Bool
order_named scope public_id r =
    in_scope scope r.company_id r.branch_id && (r.public_id == public_id)

unfoldable pub set_items : OrderAction → List OrderItem → List OrderItem
set_items action [] = []
set_items action (i ∷ items) =
    record i { status = item_status action i.status } ∷ set_items action items

-- What is set in the stored order `r` by an action on the order `row` that was read.
unfoldable pub acted_order : OrderAction → ℕ → Order → Order → Order
unfolding set_items
acted_order action user row r = record r {
  status = leads_to action;
  items = set_items action row.items;
  accepted_by = accepter action user r.accepted_by;
  version = r.version + 1;
}

module _ (m : Mongo) where
  -- What an action does to an order that was found.
  unfoldable pub act_on_row : OrderAction → Scope → OrderChange → Order → Action (Database m) Order
  unfolding acted_order audit starts_from may_act managers
  act_on_row action scope body row = do
    check_version row.version body.expected_version
    require_value (starts_from action row.status)
    allow scope.user (may_act action)
    require_value (not (ends_order action) || leb 3 (trimmed_length body.reason))
    ensure (not (is_cancel action && not (is_placed row.status)) || managers scope.user.role)
        forbidden
    require_value (not (is_some row.billed_invoice_id))
    modify (λ s. record s {
      orders = m.update_one (λ r. r.id == row.id) (acted_order action scope.user.id row) s.orders;
    })
    audit m scope row.id
    pure (acted_order action scope.user.id row row)

  unfoldable pub handle_order : OrderAction → Scope → ℕ → OrderChange → Action (Database m) Order
  unfolding act_on_row kitchen_roles sellers
  handle_order action scope public_id body = do
    cafe_only scope
    ensure (sellers scope.user.role || is_kitchen scope.user.role) forbidden
    row ← required_row m (order_named scope public_id) (λ s. s.orders)
    act_on_row action scope body row
