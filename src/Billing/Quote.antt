-- ===== src/Billing/Quote.antt =====
-- apps/web/src/server/billing.ts, `quote`: what a cart costs.
use cafe_retail_software.Billing.Cart.{
  gst_rate_of, product_linked, Quote, item_linked, cess_rate_of, same_test, gst_active, is_gst,
  asked_type, customer_branch, customer_state,
}
use cafe_retail_software.Documents.Invoices.{CartItem, Linked, QuoteBody, CartEntry}
use cafe_retail_software.Cafe.{is_cafe}
use cafe_retail_software.Inventory.{active_product}
use cafe_retail_software.Cafe.Ordering.{on_menu}
use cafe_retail_software.Prelude.Int.{pos, ◌-ℤ◌}
use cafe_retail_software.Database.{Database, required_row}
use cafe_retail_software.Result.{
  Action, pure, gets, ◌>>◌, ◌>>=◌, required, lift, require_value, validation_error, scope_integrity,
  ensure, forbidden, not_configured,
}
use cafe_retail_software.Security.{managers, sellers, authorized_branch, Scope, allow}
use cafe_retail_software.Billing.Tax.{sum_texts, line_price, printed_line, taxes_of, Sold, Price}
use cafe_retail_software.Documents.{Product, Customer, Branch}
use cafe_retail_software.Documents.Invoices.{Profile, InvoiceItem, TaxRate, InvoiceType}
use cafe_retail_software.Ledger.{scoped_customer, zero_text}
use cafe_retail_software.Money.{Text, scaled, decimal}
use cafe_retail_software.Prelude.{
  ℕ, Bool, Option, some, true, not, List, ◌&&◌, none, false, given_or, leb, ◌==◌, or_else, ◌∷◌,
  is_some, length, ◌-◌, ◌+◌, [], ◌||◌, opt_eq, if◌then◌else◌,
}
use cafe_retail_software.Mongo.{Mongo}

module _ (m : Mongo) where
  -- What is on the menu, or the product, under an identifier.
  unfoldable pub found_item : Bool → ℕ → ℕ → ℕ → Action (Database m) CartItem
  found_item true company branch id = do
    item ← required_row m (on_menu company branch id) (λ s. s.menu_items)
    pure (record {
      selling_price = item.selling_price;
      product_id = item.product_id;
      linked = item_linked item;
    })
  found_item false company branch id = do
    item ← required_row m (active_product company id) (λ s. s.products)
    pure (record {
      selling_price = item.selling_price;
      product_id = some item.id;
      linked = product_linked item;
    })

  -- A snapshot goes before what is found.
  unfoldable pub item_or : Option CartItem → Bool → ℕ → ℕ → ℕ → Action (Database m) CartItem
  unfolding found_item
  item_or (some item) is_menu company branch id = pure item
  item_or none is_menu company branch id = found_item is_menu company branch id

  unfoldable pub cart_item : Bool → ℕ → ℕ → CartEntry → Action (Database m) CartItem
  unfolding item_or
  cart_item is_menu company branch entry = do
    id ← required (if is_menu then entry.menu_item_public_id else entry.product_id) validation_error
    item_or entry.snapshot is_menu company branch id

  -- The product that a menu item is linked to must be there.
  unfoldable pub required_linked : ℕ → ℕ → Action (Database m) Linked
  required_linked company id = do
    found ←
        gets
          (λ s. m.find_one (λ (p : Product). (p.id == id) && (p.company_id == company)) s.products)
    product ← required found scope_integrity
    pure (product_linked product)

  unfoldable pub linked_to : Option ℕ → ℕ → Linked → Action (Database m) Linked
  unfolding required_linked
  linked_to none company own = pure own
  linked_to (some id) company own = required_linked company id

  unfoldable pub linked_of : Bool → ℕ → CartItem → Action (Database m) Linked
  unfolding linked_to
  linked_of true company item = linked_to item.product_id company item.linked
  linked_of false company item = pure item.linked

  unfoldable pub rate_of : Bool → ℕ → Option ℕ → Action (Database m) (Option TaxRate)
  rate_of true company (some id) = gets (λ s.
      m.find_one (λ (r : TaxRate). (r.id == id) && (r.company_id == company) && r.is_active)
        s.tax_rates)
  rate_of _ company id = pure none

  -- One line of a quote under a number, with its price.
  unfoldable pub quote_line :
      Scope → Bool → ℕ → Bool → Bool → ℕ → CartEntry → Action (Database m) (Price × InvoiceItem)
  unfolding managers cart_item linked_of rate_of gst_rate_of cess_rate_of line_price printed_line
      taxes_of
  quote_line scope cafe branch active interstate next entry = do
    item ← cart_item cafe scope.company.id branch entry
    p ← lift (line_price (managers scope.user.role) item.selling_price entry.line)
    linked ← linked_of cafe scope.company.id item
    rate ← rate_of active scope.company.id linked.gst_rate_id
    gst_rate ← lift (gst_rate_of active rate)
    own ← lift (scaled (or_else linked.cess_rate_percent zero_text))
    cess_rate ← lift (cess_rate_of active rate own)
    let sold : Sold = record {
      product_id = item.product_id;
      unit_cost = linked.unit_cost;
      gst_rate = gst_rate;
      cess_rate = cess_rate;
      tracks_stock = is_some item.product_id && not linked.is_service;
    }
    line ←
        lift
          (printed_line next sold p (taxes_of interstate (p.gross - p.discount) gst_rate cess_rate))
    pure (p, line)

  -- The lines of a quote from a number on, with the sum of their values and of their discounts.
  unfoldable pub quote_items :
      Scope
      → Bool
      → ℕ
      → Bool
      → Bool
      → ℕ
      → List CartEntry
      → Action (Database m) (ℕ × ℕ × List InvoiceItem)
  unfolding quote_line
  quote_items scope cafe branch active interstate next [] = pure (0, 0, [])
  quote_items scope cafe branch active interstate next (entry ∷ entries) = do
    (p, line) ← quote_line scope cafe branch active interstate next entry
    rest ← quote_items scope cafe branch active interstate (next + 1) entries
    pure (p.gross + rest.0, p.discount + rest.1, line ∷ rest.2)

  unfoldable pub quote_customer : Scope → Option ℕ → Action (Database m) (Option Customer)
  unfolding scoped_customer
  quote_customer scope none = pure none
  quote_customer scope (some id) = do c ← scoped_customer m scope id; pure (some c)

  -- A total over the lines, read from their texts and printed.
  unfoldable pub total_of : (InvoiceItem → Text) → List InvoiceItem → Action (Database m) Text
  unfolding sum_texts
  total_of f items = do n ← lift (sum_texts f items); lift (decimal (pos n))

  -- The totals over the lines.
  unfoldable pub quote_totals :
      ℕ → Option ℕ → InvoiceType → ℕ × ℕ × List InvoiceItem → Action (Database m) Quote
  unfolding total_of
  quote_totals branch customer kind lines = do
    subtotal ← lift (decimal (pos lines.0))
    discount ← lift (decimal (pos lines.1))
    taxable ← lift (decimal (pos lines.0 -ℤ pos lines.1))
    cgst ← total_of (λ i. i.cgst_total) lines.2
    sgst ← total_of (λ i. i.sgst_total) lines.2
    igst ← total_of (λ i. i.igst_total) lines.2
    cess ← total_of (λ i. i.cess_total) lines.2
    grand ← total_of (λ i. i.line_total) lines.2
    pure (record {
      branch_id = branch;
      customer_id = customer;
      invoice_type = kind;
      subtotal = subtotal;
      discount_total = discount;
      taxable_total = taxable;
      cgst_total = cgst;
      sgst_total = sgst;
      igst_total = igst;
      cess_total = cess;
      grand_total = grand;
      items = lines.2;
    })

  -- The quote for a branch that the user may use.
  unfoldable pub quote_in : Scope → ℕ → Bool → QuoteBody → Branch → Action (Database m) Quote
  unfolding quote_customer quote_items quote_totals given_or
  quote_in scope today cafe body branch = do
    require_value (leb 1 (length body.items) && leb (length body.items) 100)
    ensure (same_test (is_cafe scope.company.business_type) cafe) forbidden
    found ← gets (λ s. m.find_one (λ (p : Profile). p.company_id == scope.company.id) s.profiles)
    profile ← required found not_configured
    require_value (not body.odd_date)
    let active : Bool = gst_active profile (or_else body.invoice_day today)
    require_value (not body.odd_type)
    require_value (same_test (is_gst (asked_type body.invoice_type active)) active)
    customer ← quote_customer scope body.customer_id
    require_value (
        not (is_some (customer_branch customer))
        || opt_eq (customer_branch customer) (some branch.id))
    let known : Option ℕ = given_or (customer_state customer) profile.state_code
    let state_code : Option ℕ = given_or body.place_of_supply_state_code known
    require_value
        (not active || (profile.has_gstin && is_some profile.state_code && is_some state_code))
    lines ←
        quote_items scope cafe branch.id active (not (opt_eq state_code profile.state_code)) 1
          body.items
    quote_totals branch.id body.customer_id (asked_type body.invoice_type active) lines

  unfoldable pub quote : Scope → ℕ → Bool → QuoteBody → Action (Database m) Quote
  unfolding sellers authorized_branch quote_in
  quote scope today cafe body = do
    allow scope.user sellers
    branch ← authorized_branch m scope body.branch_id
    quote_in scope today cafe body branch
