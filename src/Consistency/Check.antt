-- ===== src/Consistency/Check.antt =====
-- apps/web/src/server/consistency.ts, `sync/reconcile`.
use cafe_retail_software.Documents.{Reconciliation}
use cafe_retail_software.Database.{next_id, Database, reconciliation_counter}
use cafe_retail_software.Consistency.{report}
use cafe_retail_software.Security.{managers, Scope, allow, in_scope}
use cafe_retail_software.Result.{Action, gets, lift, pure, modify, ◌>>=◌, ◌>>◌}
use cafe_retail_software.Mongo.{Mongo}

module _ (m : Mongo) where
  -- The documents of the scope are checked, and the result is inserted.
  unfoldable pub reconcile : Scope → Action (Database m) Reconciliation
  unfolding managers report next_id
  reconcile scope = do
    allow scope.user managers
    invoices ← gets (λ s. m.find (λ r. in_scope scope r.company_id r.branch_id) s.invoices)
    payments ← gets (λ s. m.find (λ r. in_scope scope r.company_id r.branch_id) s.invoice_payments)
    stock ← gets (λ s. m.find (λ r. in_scope scope r.company_id r.branch_id) s.inventory)
    orders ← gets (λ s. m.find (λ r. in_scope scope r.company_id r.branch_id) s.orders)
    found ← lift (report scope.company.id scope.user.branch_id invoices payments stock orders)
    id ← next_id m reconciliation_counter
    let row : Reconciliation = record found { id = id }
    modify (λ s. record s { reconciliations = m.insert_one row s.reconciliations })
    pure row
