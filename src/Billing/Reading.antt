-- ===== src/Billing/Reading.antt =====
-- A quote, and the loading of a cafe's bill, write nothing (billing.ts, cafe-billing.ts).
use cafe_retail_software.Documents.{Branch}
use cafe_retail_software.Billing.Sources.{
  source_orders, load_cafe_bill, BillKind, BillSource, session_bill, order_bill,
}
use cafe_retail_software.Billing.Checkout.{require_draft, price_sale, load_source}
use cafe_retail_software.Billing.Sale.{Occasion, CheckoutBody}
use cafe_retail_software.Money.{Text}
use cafe_retail_software.Documents.Invoices.{CartItem, CartEntry, QuoteBody, Linked}
use cafe_retail_software.Documents.Invoices.{InvoiceItem, InvoiceType}
use cafe_retail_software.Ledger.{scoped_customer}
use cafe_retail_software.Prelude.{
  Option, Bool, ℕ, true, some, List, false, none, ◌∷◌, ◌+◌, [], ap, ◌≡◌,
}
use cafe_retail_software.Billing.Quote.{
  quote_items, linked_of, found_item, total_of, cart_item, rate_of, quote, quote_customer, item_or,
  linked_to, required_linked, quote_line, quote_totals, quote_in,
}
use cafe_retail_software.Security.{authorized_branch, Scope}
use cafe_retail_software.Database.{Database, required_row, required_row-holds}
use cafe_retail_software.Result.Keeps.{Keeps, Keeps->>=, Keeps-pure, reading, Keeps-modify}
use cafe_retail_software.Mongo.{Mongo}

module _ (m : Mongo) {X : Type 0} (f : Database m → X) where
  pub required_row-Keeps :
      {R : Type 0} (p : R → Bool) (coll : Database m → m.Collection R)
      → Keeps f (required_row m p coll)
  required_row-Keeps p coll = record {
    kept = λ s h. let (_, _, same) = required_row-holds m p coll s h in ap f same;
  }

  pub authorized_branch-Keeps : (scope : Scope) (id : ℕ) → Keeps f (authorized_branch m scope id)
  unfolding authorized_branch
  authorized_branch-Keeps scope id = search reading

  found_item-Keeps :
      (is_menu : Bool) (company branch id : ℕ) → Keeps f (found_item m is_menu company branch id)
  unfolding found_item
  found_item-Keeps true company branch id = search (reading, required_row-Keeps)
  found_item-Keeps false company branch id = search (reading, required_row-Keeps)

  item_or-Keeps :
      (snapshot : Option CartItem) (is_menu : Bool) (company branch id : ℕ)
      → Keeps f (item_or m snapshot is_menu company branch id)
  unfolding item_or
  item_or-Keeps none is_menu company branch id = found_item-Keeps is_menu company branch id
  item_or-Keeps (some item) is_menu company branch id = Keeps-pure f item

  cart_item-Keeps :
      (is_menu : Bool) (company branch : ℕ) (entry : CartEntry)
      → Keeps f (cart_item m is_menu company branch entry)
  unfolding cart_item
  cart_item-Keeps is_menu company branch entry = search (reading, item_or-Keeps)

  linked_to-Keeps :
      (id : Option ℕ) (company : ℕ) (own : Linked) → Keeps f (linked_to m id company own)
  unfolding linked_to required_linked
  linked_to-Keeps none company own = search reading
  linked_to-Keeps (some id) company own = search reading

  linked_of-Keeps :
      (is_menu : Bool) (company : ℕ) (item : CartItem) → Keeps f (linked_of m is_menu company item)
  unfolding linked_of
  linked_of-Keeps true company item = linked_to-Keeps item.product_id company item.linked
  linked_of-Keeps false company item = search reading

  rate_of-Keeps :
      (active : Bool) (company : ℕ) (id : Option ℕ) → Keeps f (rate_of m active company id)
  unfolding rate_of
  rate_of-Keeps true company (some id) = search reading
  rate_of-Keeps true company none = search reading
  rate_of-Keeps false company id = search reading

  quote_line-Keeps :
      (scope : Scope) (is_menu : Bool) (branch : ℕ) (active interstate : Bool) (next : ℕ)
      (entry : CartEntry)
      → Keeps f (quote_line m scope is_menu branch active interstate next entry)
  unfolding quote_line
  quote_line-Keeps scope is_menu branch active interstate next entry =
      search (reading, cart_item-Keeps, linked_of-Keeps, rate_of-Keeps) depth 30

  quote_items-Keeps :
      (scope : Scope) (is_menu : Bool) (branch : ℕ) (active interstate : Bool) (next : ℕ)
      (entries : List CartEntry)
      → Keeps f (quote_items m scope is_menu branch active interstate next entries)
  unfolding quote_items
  quote_items-Keeps scope is_menu branch active interstate next [] = search reading
  quote_items-Keeps scope is_menu branch active interstate next (entry ∷ entries) =
      Keeps->>= f (quote_line m scope is_menu branch active interstate next entry) _
        (quote_line-Keeps scope is_menu branch active interstate next entry)
        λ r.
          Keeps->>= f (quote_items m scope is_menu branch active interstate (next + 1) entries) _
            (quote_items-Keeps scope is_menu branch active interstate (next + 1) entries)
            (λ rest. Keeps-pure f _)

  pub quote_customer-Keeps : (scope : Scope) (id : Option ℕ) → Keeps f (quote_customer m scope id)
  unfolding quote_customer scoped_customer
  quote_customer-Keeps scope none = search reading
  quote_customer-Keeps scope (some id) = search (reading, required_row-Keeps)

  total_of-Keeps :
      (g : InvoiceItem → Text) (items : List InvoiceItem) → Keeps f (total_of m g items)
  unfolding total_of
  total_of-Keeps g items = search reading

  quote_totals-Keeps :
      (branch : ℕ) (customer : Option ℕ) (kind : InvoiceType) (lines : ℕ × ℕ × List InvoiceItem)
      → Keeps f (quote_totals m branch customer kind lines)
  unfolding quote_totals
  quote_totals-Keeps branch customer kind lines = search (reading, total_of-Keeps) depth 40

  quote_in-Keeps :
      (scope : Scope) (today : ℕ) (at_cafe : Bool) (body : QuoteBody) (branch : Branch)
      → Keeps f (quote_in m scope today at_cafe body branch)
  unfolding quote_in
  quote_in-Keeps scope today at_cafe body branch =
      search (reading, quote_customer-Keeps, quote_items-Keeps, quote_totals-Keeps) depth 60

  pub quote-Keeps :
      (scope : Scope) (today : ℕ) (at_cafe : Bool) (body : QuoteBody)
      → Keeps f (quote m scope today at_cafe body)
  unfolding quote
  quote-Keeps scope today at_cafe body =
      search (reading, authorized_branch-Keeps, quote_in-Keeps) depth 10

  source_orders-Keeps :
      (kind : BillKind) (scope : Scope) (id : ℕ) (expected : Option ℕ)
      → Keeps f (source_orders m kind scope id expected)
  unfolding source_orders
  source_orders-Keeps session_bill scope id none = search (reading, required_row-Keeps) depth 20
  source_orders-Keeps session_bill scope id (some v) = search (reading, required_row-Keeps) depth 20
  source_orders-Keeps order_bill scope id none = search (reading, required_row-Keeps) depth 20
  source_orders-Keeps order_bill scope id (some v) = search (reading, required_row-Keeps) depth 20

  load_cafe_bill-Keeps :
      (scope : Scope) (today : ℕ) (source : BillSource)
      → Keeps f (load_cafe_bill m scope today source)
  unfolding load_cafe_bill
  load_cafe_bill-Keeps scope today source =
      search (reading, source_orders-Keeps, quote-Keeps) depth 20

  pub load_source-Keeps :
      (scope : Scope) (today : ℕ) (source : Option BillSource)
      → Keeps f (load_source m scope today source)
  unfolding load_source
  load_source-Keeps scope today none = search reading
  load_source-Keeps scope today (some source) = search (reading, load_cafe_bill-Keeps)

  pub require_draft-Keeps : (scope : Scope) (id : Option ℕ) → Keeps f (require_draft m scope id)
  unfolding require_draft
  require_draft-Keeps scope none = search reading
  require_draft-Keeps scope (some id) = search reading

  -- A sale that is priced touches its branch, and nothing else.
  pub price_sale-Keeps :
      (scope : Scope) (o : Occasion) (body : CheckoutBody)
      → ((s : Database m) (c : m.Collection Branch) → f (record s { branches = c }) ≡ f s)
      → Keeps f (price_sale m scope o body)
  unfolding price_sale
  price_sale-Keeps scope o body blind =
      search
        (
          reading, Keeps-modify, load_source-Keeps, quote-Keeps, authorized_branch-Keeps,
          quote_customer-Keeps,
        )
        depth 40
