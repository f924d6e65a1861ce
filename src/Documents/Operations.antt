-- ===== src/Documents/Operations.antt =====
-- The documents of `operation_keys` (financial.ts): the results of requests that may be repeated.
use cafe_retail_software.Prelude.{ℕ}
use cafe_retail_software.Documents.Purchases.{PurchaseOrder}
use cafe_retail_software.Documents.Invoices.{Invoice}

pub data Outcome : Type 0 where
  purchase_outcome : PurchaseOrder → Outcome
  invoice_outcome : Invoice → Outcome

-- `id` and `hash` are digests.
pub record OperationKey : Type 0 where
  pub id : ℕ
  pub hash : ℕ
  pub result : Outcome
