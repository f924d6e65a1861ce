-- ===== src/Billing/Sold.antt =====
-- The amounts and the stock of a checkout (billing.ts, `checkout`).
use cafe_retail_software.Billing.Outcome.{checkout-IsIssued, IsIssued}
use cafe_retail_software.Inventory.Booked.{IsStocked}
use cafe_retail_software.Billing.Asked.{line_part, requested-sum_of}
use cafe_retail_software.Prelude.Int.{◌-ℤ◌, pos}
use cafe_retail_software.Billing.Taken.{stock_total, asked_at_own, none_left, asked_at_other}
use cafe_retail_software.Billing.Paid.{MayOwe}
use cafe_retail_software.Result.{ok}
use cafe_retail_software.Documents.Invoices.{Invoice}
use cafe_retail_software.Ledger.{usable_customer}
use cafe_retail_software.Database.{Database}
use cafe_retail_software.Documents.{Customer}
use cafe_retail_software.Replay.{RequestKey}
use cafe_retail_software.Prelude.{
  ℕ, List, find_first, ◌≡◌, some, false, sum_of, ◌≢◌, ◌⊎◌, All, ◌∙◌, ap, sym, Option,
}
use cafe_retail_software.Security.{Scope}
use cafe_retail_software.Billing.Checkout.{checkout}
use cafe_retail_software.Billing.Sale.{Occasion, CheckoutBody}
use cafe_retail_software.Mongo.{Mongo}

-- What is due of a sale stands with a customer who may owe it.
abbrev pub OwedBy : Scope → Option ℕ → ℕ → List Customer → Type 0
OwedBy scope who due customers =
    (id : ℕ) × (c : Customer) × (who ≡ some id)
    × (find_first (usable_customer scope id) customers ≡ some c)
    × MayOwe due c

module _ (m : Mongo) where
  own_branch :
      {scope : Scope} {o : Occasion} {key : RequestKey} {body : CheckoutBody} {s t : Database m}
      {invoice : Invoice} (i : IsIssued m scope o key body s t invoice)
      → invoice.branch_id ≡ i.sale.branch.id
  own_branch i = i.written.branch ∙ i.priced.one_branch

  -- A checkout that issues an invoice takes from the stock of its branch, product by product, the quantities of
  -- the invoice's lines of which stock is kept, and takes nothing in another branch or another company. No row
  -- of the stock is negative afterwards where none was before.
  pub checkout_stock :
      (scope : Scope) (o : Occasion) (key : RequestKey) (body : CheckoutBody) (s : Database m)
      {invoice : Invoice} {t : Database m}
      → checkout m scope o key body s ≡ ok ((invoice, false), t)
      → ((product : ℕ)
          → stock_total scope.company.id invoice.branch_id product (m.docs t.inventory)
            ≡ stock_total scope.company.id invoice.branch_id product (m.docs s.inventory)
              -ℤ pos (sum_of (line_part product) invoice.items))
        × ((company' branch' product : ℕ)
            → (scope.company.id ≢ company') ⊎ (invoice.branch_id ≢ branch')
            → stock_total company' branch' product (m.docs t.inventory)
              ≡ stock_total company' branch' product (m.docs s.inventory))
        × (All IsStocked (m.docs s.inventory) → All IsStocked (m.docs t.inventory))
  checkout_stock scope o key body s {invoice = invoice} h =
      let i = checkout-IsIssued m scope o key body s h in
      let w = i.written in
      let (_, sums) = requested-sum_of i.sale.quoted.items w.asked_for in
      (
        λ product.
            rw (own_branch i, w.amounts.items_of)
              (w.taken.left scope.company.id i.sale.branch.id product
                ∙ ap
                    (λ n.
                      stock_total scope.company.id i.sale.branch.id product (m.docs s.inventory)
                      -ℤ pos n)
                    (asked_at_own scope.company.id i.sale.branch.id w.requests product
                      ∙ sums product)),
        λ company' branch' product other.
            w.taken.left company' branch' product
            ∙ sym (
                none_left _ _ (
                  asked_at_other scope.company.id i.sale.branch.id w.requests company' branch'
                    product (rw (own_branch i) at other))),
        w.taken.stocked,
      )
