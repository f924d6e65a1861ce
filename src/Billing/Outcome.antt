-- ===== src/Billing/Outcome.antt =====
-- What a checkout that issues an invoice has found and written, from the request to the end of the transaction
-- (billing.ts, `checkout`).
use mathlib.Core.Option.{some-injective}
use cafe_retail_software.Billing.{invoice_in_scope, is_draft}
use mathlib.Core.Path.{subst}
use cafe_retail_software.Billing.Paid.{IsPaid, pay_sale-IsPaid}
use cafe_retail_software.Billing.Reading.{price_sale-Keeps, require_draft-Keeps}
use cafe_retail_software.Billing.Writes.{pay_sale-Keeps}
use cafe_retail_software.Documents.{Branch}
use cafe_retail_software.Billing.Issued.{with_invoice}
use cafe_retail_software.Billing.Written.{IsWritten, IsTaken-between}
use cafe_retail_software.Billing.Steps.{write_sale-IsWritten}
use cafe_retail_software.Billing.Tender.{Tendered}
use cafe_retail_software.Documents.Invoices.{Invoice}
use cafe_retail_software.Prelude.{
  List, ◌≡◌, true, find_first, ℕ, ◌∙◌, ap, none, ◌++◌, map, refl, or_else, false, leb, ◌&&◌, sym,
  Option, some, ◌==◌, not, is_some, ◌||◌, opt_eq, arith, inl, inr,
}
use cafe_retail_software.Database.{Database}
use cafe_retail_software.Replay.{RequestKey}
use cafe_retail_software.Billing.Checkout.{
  require_draft, price_sale, pay_sale, write_sale, checkout, issue, issue_once,
}
use cafe_retail_software.Billing.Sale.{Occasion, CheckoutBody, Sale, issued_with, stored_payment}
use cafe_retail_software.Security.{Scope, sellers}
use cafe_retail_software.Result.{
  ok, ok-injective, >>=-eq-ok, ran, ensure->>-eq-ok, validation_error, forbidden,
  idempotency_conflict, not_found,
}
use cafe_retail_software.Billing.Priced.{IsPriced, price_sale-IsPriced, IsPriced-from}
use cafe_retail_software.Mongo.{Mongo, find_one-cases}

module _ (m : Mongo) where
  -- The draft that is to be issued is in the scope, and not issued yet.
  abbrev pub HasDraft : Scope → Option ℕ → List Invoice → Type 0
  HasDraft scope id rows =
      (n : ℕ)
      → id ≡ some n
      → (d : Invoice) × (find_first (invoice_in_scope scope n) rows ≡ some d)
        × (is_draft d.status ≡ true)

  require_draft-HasDraft :
      (scope : Scope) (id : Option ℕ) (s : Database m) {t : Database m}
      → require_draft m scope id s ≡ ok (tt, t)
      → HasDraft scope id (m.docs s.invoices)
  unfolding require_draft
  require_draft-HasDraft scope none s h n e = absurd (ground arith)
  require_draft-HasDraft scope (some id) s h n e =
      let own : id ≡ n = some-injective _ _ e in
      elim (find_one-cases m (invoice_in_scope scope id) s.invoices) [
        | inl missing ↦ absurd (ground arith)
        | inr (d, one, passes) ↦
            let still : is_draft d.status ≡ true = ground arith in
            (d, rw own at (sym (m.find_one-eq (invoice_in_scope scope id) s.invoices) ∙ one), still)
      ]

  pub record IsIssued (scope : Scope) (o : Occasion) (key : RequestKey) (body : CheckoutBody)
      (s t : Database m) (invoice : Invoice) : Type 0 where
    pub may_sell : sellers scope.user.role ≡ true
    pub fresh : find_first (issued_with scope.company.id key) (m.docs s.invoices) ≡ none
    pub sale : Sale
    pub tendered : List Tendered
    pub priced :
        IsPriced m scope (or_else body.cart.invoice_day o.today) body.cart.customer_id s sale
    pub paid_now : IsPaid sale tendered
    pub drafted : HasDraft scope o.draft_id (m.docs s.invoices)
    pub written : IsWritten m scope o key sale tendered s t invoice

  IsWritten-from :
      (scope : Scope) (o : Occasion) (key : RequestKey) (sale : Sale) (tendered : List Tendered)
      (s u t : Database m) (invoice : Invoice)
      → u.inventory ≡ s.inventory
      → u.invoices ≡ s.invoices
      → u.invoice_payments ≡ s.invoice_payments
      → u.customers ≡ s.customers
      → u.ledger ≡ s.ledger
      → IsWritten m scope o key sale tendered u t invoice
      → IsWritten m scope o key sale tendered s t invoice
  IsWritten-from scope o key sale tendered s u t invoice stock bills money people rows w = record {
    requests = w.requests;
    asked_for = w.asked_for;
    draft_kept = w.draft_kept;
    taken = IsTaken-between m scope.company.id sale.branch.id w.requests s u t t stock refl w.taken;
    amounts = w.amounts;
    company = w.company;
    branch = w.branch;
    keyed = w.keyed;
    hashed = w.hashed;
    stored = w.stored ∙ ap (λ c. with_invoice o.draft_id invoice (m.docs c)) bills;
    payments =
        w.payments
        ∙ ap (λ c. m.docs c ++ map (stored_payment invoice sale.branch.id o.today) tendered) money;
    before = w.before;
    after = w.after;
    posted = w.posted;
    customers_before = w.customers_before ∙ people;
    customers_after = w.customers_after;
    ledger_before = w.ledger_before ∙ rows;
    ledger_after = w.ledger_after;
  }

  -- What comes before the writing touches the branch and counts payments, and keeps the rest.
  module _ (scope : Scope) (o : Occasion) (body : CheckoutBody) (sale : Sale)
      (tendered : List Tendered) (s s1 s2 s3 : Database m)
      (drafted : require_draft m scope o.draft_id s ≡ ok (tt, s1))
      (priced_now : price_sale m scope o body s1 ≡ ok (sale, s2))
      (paid : pay_sale m scope o.at_cafe body sale s2 ≡ ok (tendered, s3)) where
    start_keeps :
        {X : Type 0} (f : Database m → X)
        → ((s : Database m) (c : ℕ → ℕ) → f (record s { counters = c }) ≡ f s)
        → ((s : Database m) (c : m.Collection Branch) → f (record s { branches = c }) ≡ f s)
        → f s3 ≡ f s
    start_keeps f counts touched =
        (pay_sale-Keeps m f scope o.at_cafe body sale counts).kept s2 paid
        ∙ ((price_sale-Keeps m f scope o body touched).kept s1 priced_now
            ∙ (require_draft-Keeps m f scope o.draft_id).kept s drafted)

    issued_now :
        (key : RequestKey) (invoice : Invoice) (t : Database m)
        → write_sale m scope o key body sale tendered s3 ≡ ok (invoice, t)
        → IsPriced m scope (or_else body.cart.invoice_day o.today) body.cart.customer_id s sale
          × IsPaid sale tendered
          × IsWritten m scope o key sale tendered s t invoice
    issued_now key invoice t made_now =
        let same_days = (require_draft-Keeps m (λ u. u.closures) scope o.draft_id).kept s drafted in
        let same_people =
          (require_draft-Keeps m (λ u. u.customers) scope o.draft_id).kept s drafted in
        let priced =
          IsPriced-from m scope (or_else body.cart.invoice_day o.today) body.cart.customer_id s1 s
            sale same_days same_people (price_sale-IsPriced m scope o body s1 priced_now) in
        let paid_well = pay_sale-IsPaid m scope o.at_cafe body sale s2 paid in
        (
          priced,
          paid_well,
          IsWritten-from scope o key sale tendered s s3 t invoice
              (start_keeps (λ u. u.inventory) (λ s c. refl) (λ s c. refl))
              (start_keeps (λ u. u.invoices) (λ s c. refl) (λ s c. refl))
              (start_keeps (λ u. u.invoice_payments) (λ s c. refl) (λ s c. refl))
              (start_keeps (λ u. u.customers) (λ s c. refl) (λ s c. refl))
              (start_keeps (λ u. u.ledger) (λ s c. refl) (λ s c. refl))
              (write_sale-IsWritten m scope o key body sale tendered s3 priced.reads_total
                paid_well.not_above made_now),
        )

  issue-IsIssued :
      (scope : Scope) (o : Occasion) (key : RequestKey) (body : CheckoutBody) (s : Database m)
      {invoice : Invoice} {t : Database m}
      → sellers scope.user.role ≡ true
      → find_first (issued_with scope.company.id key) (m.docs s.invoices) ≡ none
      → issue m scope o key body s ≡ ok (invoice, t)
      → IsIssued scope o key body s t invoice
  unfolding issue
  issue-IsIssued scope o key body s {invoice = invoice} {t = t} may fresh h =
      elim (>>=-eq-ok (require_draft m scope o.draft_id) _ s h) [
        | ran _ s1 drafted h1 ↦ elim (>>=-eq-ok (price_sale m scope o body) _ s1 h1) [
          | ran sale s2 priced_now h2 ↦
              elim (>>=-eq-ok (pay_sale m scope o.at_cafe body sale) _ s2 h2) [
                | ran tendered s3 paid h3 ↦
                    let (priced, paid_well, written) =
                      issued_now scope o body sale tendered s s1 s2 s3 drafted priced_now paid key
                        invoice t h3 in
                    record {
                      may_sell = may;
                      fresh = fresh;
                      sale = sale;
                      tendered = tendered;
                      priced = priced;
                      paid_now = paid_well;
                      drafted = require_draft-HasDraft scope o.draft_id s drafted;
                      written = written;
                    }
              ]
        ]
      ]

  issue_once-IsIssued :
      (found : Option Invoice) (scope : Scope) (o : Occasion) (key : RequestKey)
      (body : CheckoutBody) (s : Database m) {invoice : Invoice} {t : Database m}
      → sellers scope.user.role ≡ true
      → find_first (issued_with scope.company.id key) (m.docs s.invoices) ≡ found
      → issue_once m scope o key body found s ≡ ok ((invoice, false), t)
      → IsIssued scope o key body s t invoice
  unfolding issue_once
  issue_once-IsIssued none scope o key body s may fresh h =
      elim (>>=-eq-ok (issue m scope o key body) _ s h) [
        | ran invoice u issued h1 ↦
            subst (λ r. IsIssued scope o key body s r.1 r.0.0) (ok-injective h1)
              (issue-IsIssued scope o key body s may fresh issued)
      ]
  issue_once-IsIssued (some old) scope o key body s may fresh h =
      let (_, h1) = ensure->>-eq-ok (old.request_hash == key.hash) idempotency_conflict _ s h in
      let (_, h2) =
        ensure->>-eq-ok
          (not (is_some scope.user.branch_id) || opt_eq scope.user.branch_id (some old.branch_id))
          not_found _ s h1 in
      absurd (ground (arith, ok-injective h2))

  -- A checkout that returns an invoice as a new one has issued it.
  pub checkout-IsIssued :
      (scope : Scope) (o : Occasion) (key : RequestKey) (body : CheckoutBody) (s : Database m)
      {invoice : Invoice} {t : Database m}
      → checkout m scope o key body s ≡ ok ((invoice, false), t)
      → IsIssued scope o key body s t invoice
  unfolding checkout
  checkout-IsIssued scope o key body s h =
      let (_, h1) =
        ensure->>-eq-ok (leb 8 key.length && leb key.length 150) validation_error _ s h in
      let (may, h2) = ensure->>-eq-ok (sellers scope.user.role) forbidden _ s h1 in
      issue_once-IsIssued (m.find_one (issued_with scope.company.id key) s.invoices) scope o key
        body s may (sym (m.find_one-eq (issued_with scope.company.id key) s.invoices)) h2
