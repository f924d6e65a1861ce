-- ===== src/Billing/Requested.antt =====
-- apps/web/src/server/billing.ts, `checkout`: the stock that an invoice takes, product by product.
use cafe_retail_software.Money.{scaled}
use cafe_retail_software.Prelude.{none}
use cafe_retail_software.Result.Pure
use cafe_retail_software.Prelude.Int.{neg, leb_ℤ, pos}
use cafe_retail_software.Database.{Database}
use cafe_retail_software.Documents.{Inventory, sale}
use cafe_retail_software.Security.{Scope}
use cafe_retail_software.Inventory.{record_movement, add_stock, of_product}
use cafe_retail_software.Prelude.{
  List, ℕ, ◌∷◌, [], if◌then◌else◌, Bool, ◌==◌, ◌&&◌, ◌+◌, is_some, some,
}
use cafe_retail_software.Documents.Invoices.{InvoiceItem}
use cafe_retail_software.Result.{
  Action, gets, pure, ensure, insufficient_stock, modify, ◌>>=◌, ◌>>◌, Result, ok, map_ok,
}
use cafe_retail_software.Mongo.{Mongo}

-- The map from a product to a quantity in hundredths, in the order of its keys.
abbrev pub Requests : Type 0
Requests = List (ℕ × ℕ)

-- `requested.set(product, (requested.get(product) ?? 0) + quantity)`
unfoldable pub add_request : ℕ → ℕ → Requests → Requests
add_request product quantity [] = (product, quantity) ∷ []
add_request product quantity ((k, n) ∷ rest) =
    let later = add_request product quantity rest in
    if k == product then (k, n + quantity) ∷ rest else (k, n) ∷ later

-- A line counts if it has a product of which stock is kept.
unfoldable pub request_line : InvoiceItem → Requests → Result Requests
unfolding add_request
request_line item requests = elim item.product_id [
  | none ↦ ok requests
  | some product ↦
      if item.tracks_stock
      then map_ok (λ n. add_request product n requests) (scaled item.quantity)
      else ok requests
]

unfoldable pub requested_from : Requests → List InvoiceItem → Result Requests
unfolding request_line
requested_from requests [] = ok requests
requested_from requests (item ∷ items) =
    Pure.◌>>=◌ (request_line item requests) λ next. requested_from next items

unfoldable pub requested : List InvoiceItem → Result Requests
unfolding requested_from
requested items = requested_from [] items

abbrev pub has_stock : ℕ → ℕ → ℕ → ℕ → Inventory → Bool
has_stock company branch product quantity r =
    of_product company branch product r && leb_ℤ (pos quantity) r.quantity_scaled

module _ (m : Mongo) where
  -- A quantity of one product is taken, if there is as much, and the sale recorded.
  unfoldable pub take_one : Scope → ℕ → ℕ → ℕ → ℕ → Action (Database m) (Unit {0})
  unfolding record_movement
  take_one scope branch invoice product quantity = do
    let there : Inventory → Bool = has_stock scope.company.id branch product quantity
    found ← gets (λ s. m.find_one there s.inventory)
    modify (λ s. record s {
      inventory = m.update_one there (add_stock (neg (pos quantity))) s.inventory;
    })
    ensure (is_some found) insufficient_stock
    movement ←
        record_movement m sale scope.company.id branch product (neg (pos quantity)) (some invoice)
          scope.user.id
    pure tt

  unfoldable pub take_stock : Scope → ℕ → ℕ → Requests → Action (Database m) (Unit {0})
  unfolding take_one
  take_stock scope branch invoice [] = pure tt
  take_stock scope branch invoice ((product, quantity) ∷ rest) =
      take_one scope branch invoice product quantity >> take_stock scope branch invoice rest
