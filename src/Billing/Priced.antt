-- ===== src/Billing/Priced.antt =====
-- What a sale is when it is priced: its total is the quote's, and the day of its branch is open (billing.ts,
-- `checkout`).
use cafe_retail_software.Security.Isolation.{authorized_branch_scope}
use cafe_retail_software.Documents.{Customer, Branch}
use cafe_retail_software.Ledger.{scoped_customer, usable_customer}
use mathlib.Core.Path.{subst}
use cafe_retail_software.Billing.Sources.{Loaded}
use cafe_retail_software.Billing.Reading.{authorized_branch-Keeps, quote-Keeps, load_source-Keeps}
use cafe_retail_software.Billing.Quote.{quote, quote_customer}
use cafe_retail_software.Closing.{shut_day, touch}
use cafe_retail_software.Documents.Invoices.{QuoteBody}
use cafe_retail_software.Money.{scaled}
use cafe_retail_software.Billing.Totals.{
  IsTotalled, quote-IsTotalled, quote-branch, authorized_branch-id,
}
use cafe_retail_software.Database.{Database, required_row->>=-eq-ok, found_row}
use cafe_retail_software.Prelude.{
  ℕ, ◌≡◌, or_else, ◌≤◌, find_first, none, ◌==◌, not, is_some, leb, ◌∙◌, Option, ap, some, refl,
  arith, sym, true, leb→le,
}
use cafe_retail_software.Security.{Scope, authorized_branch, in_scope}
use cafe_retail_software.Billing.Checkout.{price_sale, load_source}
use cafe_retail_software.Billing.Sale.{Occasion, CheckoutBody, Sale, working_cart}
use cafe_retail_software.Result.{
  ok, ok-injective, ensure->>-eq-ok, validation_error, day_closed, split->>=, split-lift,
}
use cafe_retail_software.Billing.Reading.{quote-Keeps}
use cafe_retail_software.Mongo.{Mongo}

-- A cafe's bill keeps the day of the request.
working_day :
    (cart : QuoteBody) (loaded : Option Loaded)
    → (working_cart cart loaded).invoice_day ≡ cart.invoice_day
working_day cart none = refl
working_day cart (some l) = refl

abbrev pub named_by : Option Customer → Option ℕ
named_by none = none
named_by (some c) = some c.id

nothing_there : {A : Type 0} (o : Option A) → not (is_some o) ≡ true → o ≡ none
nothing_there none h = refl
nothing_there (some a) h = ground arith

module _ (m : Mongo) where
  -- A customer who is found, and whom the user may use.
  pub record IsKnown (scope : Scope) (s : Database m) (customer : Option Customer) : Type 0 where
    pub usable :
        (c : Customer)
        → customer ≡ some c
        → (id : ℕ) × (find_first (usable_customer scope id) (m.docs s.customers) ≡ some c)

  quote_customer-IsKnown :
      (scope : Scope) (id : Option ℕ) (s : Database m) {customer : Option Customer} {t : Database m}
      → quote_customer m scope id s ≡ ok (customer, t)
      → IsKnown scope s customer × (named_by customer ≡ id)
  unfolding quote_customer scoped_customer
  quote_customer-IsKnown scope none s h =
      subst (λ p. IsKnown scope s p.0 × (named_by p.0 ≡ none)) (ok-injective h)
        (record { usable = λ c e. absurd (ground arith) }, refl)
  quote_customer-IsKnown scope (some id) s h =
      elim (required_row->>=-eq-ok m (usable_customer scope id) (λ s. s.customers) _ s h) [
        | found_row row passes one h1 ↦
            subst (λ p. IsKnown scope s p.0 × (named_by p.0 ≡ some id)) (ok-injective h1)
              (
                record {
                  usable = λ c e.
                      (id, sym (m.find_one-eq (usable_customer scope id) s.customers) ∙ (one ∙ e));
                },
                ground arith,
              )
      ]

  pub record IsPriced (scope : Scope) (day : ℕ) (who : Option ℕ) (s : Database m) (sale : Sale)
      : Type 0 where
    pub totalled : IsTotalled sale.quoted
    pub reads_total : scaled sale.quoted.grand_total ≡ ok sale.amount
    pub some_total : 1 ≤ sale.amount
    pub open_day :
        find_first (shut_day m scope.company.id sale.branch.id day) (m.docs s.closures) ≡ none
    pub known : IsKnown scope s sale.customer
    pub named : named_by sale.customer ≡ who
    pub one_branch : sale.quoted.branch_id ≡ sale.branch.id
    pub own_branch : in_scope scope scope.company.id sale.branch.id ≡ true

  authorized_branch-in_scope :
      (scope : Scope) (id : ℕ) (s : Database m) {b : Branch} {t : Database m}
      → authorized_branch m scope id s ≡ ok (b, t)
      → in_scope scope scope.company.id b.id ≡ true
  authorized_branch-in_scope scope id s h =
      let (_, own, _, within, _) = authorized_branch_scope m scope id s h in rw own at within

  IsKnown-from :
      (scope : Scope) (u s : Database m) (customer : Option Customer)
      → u.customers ≡ s.customers
      → IsKnown scope u customer
      → IsKnown scope s customer
  IsKnown-from scope u s customer same k = record { usable = rw (← same) k.usable }

  pub price_sale-IsPriced :
      (scope : Scope) (o : Occasion) (body : CheckoutBody) (s : Database m) {sale : Sale}
      {t : Database m}
      → price_sale m scope o body s ≡ ok (sale, t)
      → IsPriced scope (or_else body.cart.invoice_day o.today) body.cart.customer_id s sale
  unfolding price_sale
  price_sale-IsPriced scope o body s h =
      let days = λ (u : Database m). u.closures in
      let people = λ (u : Database m). u.customers in
      let (loaded, s1, got, h1) = split->>= (load_source m scope o.today o.source) _ s h in
      let cart : QuoteBody = working_cart body.cart loaded in
      let day : ℕ = or_else cart.invoice_day o.today in
      let same_day : day ≡ or_else body.cart.invoice_day o.today =
        ap (λ d. or_else d o.today) (working_day body.cart loaded) in
      let (q, s2, quoted, h2) = split->>= (quote m scope o.today o.at_cafe cart) _ s1 h1 in
      let (branch, s3, authorized, h3) =
        split->>= (authorized_branch m scope cart.branch_id) _ s2 h2 in
      let s4 : Database m = record s3 {
        branches = m.update_one (λ b. b.id == branch.id) touch s3.branches;
      } in
      let shut = shut_day m scope.company.id branch.id day in
      let (is_open, h4) =
        ensure->>-eq-ok (not (is_some (m.find_one shut s4.closures))) day_closed _ s4 h3 in
      let (customer, s5, known, h5) =
        split->>= (quote_customer m scope body.cart.customer_id) _ s4 h4 in
      let (amount, read, h6) = split-lift (scaled q.grand_total) _ s5 h5 in
      let (positive, h7) = ensure->>-eq-ok (leb 1 amount) validation_error _ s5 h6 in
      let first_steps : (X : Type 0) (f : Database m → X) → f s3 ≡ f s = λ X f.
        (authorized_branch-Keeps m f scope cart.branch_id).kept s2 authorized
        ∙ ((quote-Keeps m f scope o.today o.at_cafe cart).kept s1 quoted
            ∙ (load_source-Keeps m f scope o.today o.source).kept s got) in
      let none_shut : m.find_one shut s3.closures ≡ none = nothing_there _ is_open in
      let first : find_first shut (m.docs s3.closures) ≡ none =
        sym (m.find_one-eq shut s3.closures) ∙ none_shut in
      let (allowed, own_name) = quote_customer-IsKnown scope body.cart.customer_id s4 known in
      subst
        (λ p. IsPriced scope (or_else body.cart.invoice_day o.today) body.cart.customer_id s p.0)
        (ok-injective h7)
        (record {
          totalled = (quote-IsTotalled m scope o.today o.at_cafe cart).yields s1 quoted;
          reads_total = read;
          some_total = leb→le 1 amount positive;
          own_branch = authorized_branch-in_scope scope cart.branch_id s2 authorized;
          one_branch =
              (quote-branch m scope o.today o.at_cafe cart).yields s1 quoted
              ∙ sym ((authorized_branch-id m scope cart.branch_id).yields s2 authorized);
          open_day = rw (first_steps _ days, same_day) at first;
          known = IsKnown-from scope s4 s customer (first_steps _ people) allowed;
          named = own_name;
        })

  pub IsPriced-from :
      (scope : Scope) (day : ℕ) (who : Option ℕ) (u s : Database m) (sale : Sale)
      → u.closures ≡ s.closures
      → u.customers ≡ s.customers
      → IsPriced scope day who u sale
      → IsPriced scope day who s sale
  IsPriced-from scope day who u s sale days people p = record {
    totalled = p.totalled;
    reads_total = p.reads_total;
    some_total = p.some_total;
    open_day = rw (← days) p.open_day;
    known = IsKnown-from scope u s sale.customer people p.known;
    named = p.named;
    one_branch = p.one_branch;
    own_branch = p.own_branch;
  }
