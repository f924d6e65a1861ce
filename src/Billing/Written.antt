-- ===== src/Billing/Written.antt =====
-- What the last steps of a checkout have written (billing.ts, `checkout`).
use cafe_retail_software.Billing.Issued.{HasAmounts, with_invoice}
use cafe_retail_software.Billing.Taken.{IsTaken}
use cafe_retail_software.Billing.Requested.{Requests, requested}
use cafe_retail_software.Database.{Database}
use cafe_retail_software.Billing.Tender.{Tendered, paid_sum}
use cafe_retail_software.Replay.{RequestKey}
use cafe_retail_software.Documents.Invoices.{Invoice}
use cafe_retail_software.Security.{Scope}
use cafe_retail_software.Prelude.{ℕ, ◌≡◌, List, ◌++◌, map, some}
use cafe_retail_software.Billing.Checkout.{post_sale}
use cafe_retail_software.Billing.Sale.{Sale, Occasion, stored_payment}
use cafe_retail_software.Result.{ok}
use cafe_retail_software.Mongo.{Mongo}

module _ (m : Mongo) where
  -- What a sale has written.
  pub record IsWritten (scope : Scope) (o : Occasion) (key : RequestKey) (sale : Sale)
      (tendered : List Tendered) (s t : Database m) (invoice : Invoice) : Type 0 where
    pub requests : Requests
    pub asked_for : requested sale.quoted.items ≡ ok requests
    pub draft_kept : (n : ℕ) → o.draft_id ≡ some n → invoice.id ≡ n
    pub taken : IsTaken m scope.company.id sale.branch.id requests s t
    pub amounts : HasAmounts sale (paid_sum tendered) invoice
    pub company : invoice.company_id ≡ scope.company.id
    pub branch : invoice.branch_id ≡ sale.quoted.branch_id
    pub keyed : invoice.idempotency_key ≡ key.id
    pub hashed : invoice.request_hash ≡ key.hash
    pub stored : m.docs t.invoices ≡ with_invoice o.draft_id invoice (m.docs s.invoices)
    pub payments :
        m.docs t.invoice_payments
        ≡ m.docs s.invoice_payments ++ map (stored_payment invoice sale.branch.id o.today) tendered
    pub before : Database m
    pub after : Database m
    pub posted :
        post_sale m scope sale.customer sale.amount
          (paid_sum tendered)
          invoice.id
          sale.branch.id
          before
        ≡ ok (tt, after)
    pub customers_before : before.customers ≡ s.customers
    pub customers_after : t.customers ≡ after.customers
    pub ledger_before : before.ledger ≡ s.ledger
    pub ledger_after : t.ledger ≡ after.ledger

  pub IsTaken-between :
      (company branch : ℕ) (requests : Requests) (s s1 s2 t : Database m)
      → s1.inventory ≡ s.inventory
      → t.inventory ≡ s2.inventory
      → IsTaken m company branch requests s1 s2
      → IsTaken m company branch requests s t
  IsTaken-between company branch requests s s1 s2 t head tail taken = record {
    left = λ company' branch' product. rw tail (rw (← head) (taken.left company' branch' product));
    stocked = λ h. rw tail (taken.stocked (rw head h));
  }
