-- ===== src/Purchasing/Handler.antt =====
-- apps/web/src/server/purchasing.ts, `purchases`: the transaction of a request.
use cafe_retail_software.Documents.Purchases.{PurchaseOrder}
use cafe_retail_software.Database.{Database, required_row}
use cafe_retail_software.Result.{Action, ◌>>◌, pure, ◌>>=◌, require_value}
use cafe_retail_software.Documents.Operations.{Outcome, purchase_outcome}
use cafe_retail_software.Purchasing.Actions.{act_on_order}
use cafe_retail_software.Prelude.{Option, ℕ, some, none}
use cafe_retail_software.Purchasing.Draft.{save_draft}
use cafe_retail_software.Security.{audit, Scope, allow, managers}
use cafe_retail_software.Replay.{replay, save_replay, RequestKey}
use cafe_retail_software.Purchasing.{
  is_supported, PurchaseAction, Method, PurchaseBody, order_in_scope,
}
use cafe_retail_software.Mongo.{Mongo}

module _ (m : Mongo) where
  -- A draft is made or edited, or an action is taken on an order.
  unfoldable pub change_order :
      Scope → Option ℕ → Option PurchaseAction → PurchaseBody → Action (Database m) PurchaseOrder
  unfolding save_draft act_on_order
  change_order scope none action body = save_draft m scope none body
  change_order scope (some id) none body = do
    order ← required_row m (order_in_scope scope id) (λ s. s.purchase_orders)
    save_draft m scope (some order) body
  change_order scope (some id) (some action) body = do
    order ← required_row m (order_in_scope scope id) (λ s. s.purchase_orders)
    act_on_order m action scope body order

  -- The result that was saved under the request's key, if it has one.
  unfoldable pub saved_result : Option RequestKey → Action (Database m) (Option Outcome)
  unfolding replay
  saved_result none = pure none
  saved_result (some key) = replay m key

  unfoldable pub save_result : Option RequestKey → Outcome → Action (Database m) (Unit {0})
  unfolding save_replay
  save_result none result = pure tt
  save_result (some key) result = save_replay m key result

  -- The end of the transaction: the audit, and the result saved under the request's key.
  unfoldable pub finish_purchase :
      Scope → Option RequestKey → PurchaseOrder → Action (Database m) Outcome
  unfolding save_result audit
  finish_purchase scope key order = do
    audit m scope order.id
    save_result key (purchase_outcome order)
    pure (purchase_outcome order)

  -- The transaction, for a request whose role and method pass.
  unfoldable pub purchase_work :
      Scope
      → Option RequestKey
      → Option ℕ
      → Option PurchaseAction
      → PurchaseBody
      → Option Outcome
      → Action (Database m) Outcome
  unfolding change_order finish_purchase
  purchase_work scope key id action body (some old) = pure old
  purchase_work scope key id action body none = do
    order ← change_order scope id action body
    finish_purchase scope key order

  unfoldable pub purchases :
      Scope
      → Option RequestKey
      → Option ℕ
      → Option PurchaseAction
      → Method
      → PurchaseBody
      → Action (Database m) Outcome
  unfolding is_supported saved_result purchase_work
  purchases scope key id action method body = do
    allow scope.user managers
    require_value (is_supported id action method)
    old ← saved_result key
    purchase_work scope key id action body old
