-- ===== src/Billing/Steps.antt =====
-- The sequence of the steps of a checkout, apps/web/src/server/billing.ts, 437-639.
use mathlib.Core.Option.{some-injective}
use mathlib.Core.Path.{subst}
use cafe_retail_software.Documents.Cafe.{Order}
use cafe_retail_software.Result.{ok-injective, split-lift, split->>=}
use cafe_retail_software.Billing.Writes.{
  finalize_if-Keeps, invoice_id-Keeps, insert_payments-Keeps, insert_order-Keeps, post_sale-Keeps,
  next_number-Keeps, store_invoice-Keeps, take_stock-Keeps,
}
use cafe_retail_software.Billing.Taken.{IsTaken, take_stock-IsTaken}
use cafe_retail_software.Documents.{Movement, Inventory}
use cafe_retail_software.Billing.Issued.{
  HasAmounts, store_invoice_effect, with_invoice, insert_payments_effect, sale_invoice-HasAmounts,
}
use cafe_retail_software.Billing.Collect.{finalize_if}
use cafe_retail_software.Billing.Numbers.{next_number}
use cafe_retail_software.Result.{ok}
use cafe_retail_software.Money.{Text, scaled}
use cafe_retail_software.Documents.Invoices.{Invoice, Sequence}
use cafe_retail_software.Billing.Requested.{Requests, take_stock, requested}
use cafe_retail_software.Database.{Database}
use cafe_retail_software.Billing.Tender.{Tendered, paid_sum}
use cafe_retail_software.Prelude.{
  List, ℕ, ◌≡◌, ◌≤◌, is_some, ◌∙◌, refl, ap, ◌++◌, map, Option, some, arith, sym, none,
}
use cafe_retail_software.Replay.{RequestKey}
use cafe_retail_software.Billing.Sale.{Occasion, CheckoutBody, Sale, stored_payment, sale_invoice}
use cafe_retail_software.Security.{Scope}
use cafe_retail_software.Billing.Checkout.{
  write_sale, invoice_id, insert_order, store_invoice, post_sale, insert_payments,
}
use cafe_retail_software.Mongo.{Mongo}
use cafe_retail_software.Billing.Written.{IsWritten, IsTaken-between}

module _ (m : Mongo) where
  invoice_id-draft :
      (draft : Option ℕ) (n : ℕ) (s : Database m) {id : ℕ} {t : Database m}
      → draft ≡ some n
      → invoice_id m draft s ≡ ok (id, t)
      → id ≡ n
  unfolding invoice_id
  invoice_id-draft none n s e h = absurd (ground arith)
  invoice_id-draft (some k) n s e h = sym (ap (λ p. p.0) (ok-injective h)) ∙ some-injective _ _ e

  module _ (scope : Scope) (o : Occasion) (key : RequestKey) (body : CheckoutBody) (sale : Sale)
      (tendered : List Tendered) (requests : Requests) (id : ℕ) (number : Text) (invoice : Invoice)
      (s s1 s2 s3 s4 s5 s6 s7 s8 : Database m) (numbered : invoice_id m o.draft_id s ≡ ok (id, s1))
      (took : take_stock m scope sale.branch.id id requests s1 ≡ ok (tt, s2))
      (counted : next_number m scope.company.id sale.branch.id sale.quoted.invoice_type s2
        ≡ ok (number, s3))
      (ordered : insert_order m scope o body sale invoice s3 ≡ ok (tt, s4))
      (stored_now : store_invoice m o.draft_id invoice s4 ≡ ok (tt, s5))
      (posted_now : post_sale m scope sale.customer sale.amount
          (paid_sum tendered)
          id
          sale.branch.id
          s5
        ≡ ok (tt, s6))
      (paid_now : insert_payments m invoice sale.branch.id o.today tendered s6 ≡ ok (tt, s7))
      (ended : finalize_if m (is_some o.source) scope invoice s7 ≡ ok (tt, s8)) where
    taken_now : IsTaken m scope.company.id sale.branch.id requests s s8
    taken_now =
        let f = λ (u : Database m). u.inventory in
        IsTaken-between m scope.company.id sale.branch.id requests s s1 s2 s8
          ((invoice_id-Keeps m f o.draft_id (λ s c. refl)).kept s numbered)
          ((finalize_if-Keeps m f (is_some o.source) scope invoice (λ s c. refl)
                (λ s c d. refl)).kept
              s7 ended
            ∙ ((insert_payments-Keeps m f invoice sale.branch.id o.today tendered
                    (λ s c. refl)).kept
                  s6 paid_now
                ∙ ((post_sale-Keeps m f scope sale.customer sale.amount (paid_sum tendered) id
                        sale.branch.id (λ s c. refl) (λ s c. refl) (λ s c. refl)).kept
                      s5 posted_now
                    ∙ ((store_invoice-Keeps m f o.draft_id invoice (λ s c. refl)).kept s4 stored_now
                        ∙ ((insert_order-Keeps m f scope o body sale invoice (λ s c. refl)
                                (λ s c. refl)).kept
                              s3 ordered
                            ∙ (next_number-Keeps m f scope.company.id sale.branch.id
                                  sale.quoted.invoice_type (λ s c. refl)).kept
                                s2 counted)))))
          (take_stock-IsTaken m scope sale.branch.id id requests s1 took)

    -- What the first steps keep: all but the stock, the numbers and the orders.
    head_keeps :
        {X : Type 0} (f : Database m → X)
        → ((s : Database m) (c : ℕ → ℕ) → f (record s { counters = c }) ≡ f s)
        → ((s : Database m) (c : m.Collection Movement) → f (record s { movements = c }) ≡ f s)
        → ((s : Database m) (c : m.Collection Inventory) → f (record s { inventory = c }) ≡ f s)
        → ((s : Database m) (c : m.Collection Sequence) → f (record s { sequences = c }) ≡ f s)
        → ((s : Database m) (c : m.Collection Order) → f (record s { orders = c }) ≡ f s)
        → f s4 ≡ f s
    head_keeps f counts moves stock numbers served =
        (insert_order-Keeps m f scope o body sale invoice counts served).kept s3 ordered
        ∙ ((next_number-Keeps m f scope.company.id sale.branch.id sale.quoted.invoice_type
                numbers).kept
              s2 counted
            ∙ ((take_stock-Keeps m f scope sale.branch.id id requests counts moves stock).kept s1
                  took
                ∙ (invoice_id-Keeps m f o.draft_id counts).kept s numbered))

    steps-IsWritten :
        HasAmounts sale (paid_sum tendered) invoice
        → requested sale.quoted.items ≡ ok requests
        → invoice.id ≡ id
        → invoice.company_id ≡ scope.company.id
        → invoice.branch_id ≡ sale.quoted.branch_id
        → invoice.idempotency_key ≡ key.id
        → invoice.request_hash ≡ key.hash
        → IsWritten m scope o key sale tendered s s8 invoice
    steps-IsWritten amounts asked_now own_id own_company own_branch own_key own_hash =
        let invoices = λ (u : Database m). u.invoices in
        let payments = λ (u : Database m). u.invoice_payments in
        let customers = λ (u : Database m). u.customers in
        let rows = λ (u : Database m). u.ledger in
        let invoices4 : s4.invoices ≡ s.invoices =
          head_keeps invoices (λ s c. refl) (λ s c. refl) (λ s c. refl) (λ s c. refl)
            (λ s c. refl) in
        let invoices8 : s8.invoices ≡ s5.invoices =
          (finalize_if-Keeps m invoices (is_some o.source) scope invoice (λ s c. refl)
              (λ s c d. refl)).kept
            s7 ended
          ∙ ((insert_payments-Keeps m invoices invoice sale.branch.id o.today tendered
                  (λ s c. refl)).kept
                s6 paid_now
              ∙ (post_sale-Keeps m invoices scope sale.customer sale.amount (paid_sum tendered) id
                    sale.branch.id (λ s c. refl) (λ s c. refl) (λ s c. refl)).kept
                  s5 posted_now) in
        let payments6 : s6.invoice_payments ≡ s.invoice_payments =
          (post_sale-Keeps m payments scope sale.customer sale.amount (paid_sum tendered) id
              sale.branch.id (λ s c. refl) (λ s c. refl) (λ s c. refl)).kept
            s5 posted_now
          ∙ ((store_invoice-Keeps m payments o.draft_id invoice (λ s c. refl)).kept s4 stored_now
              ∙ head_keeps payments (λ s c. refl) (λ s c. refl) (λ s c. refl) (λ s c. refl)
                  (λ s c. refl)) in
        let payments8 : s8.invoice_payments ≡ s7.invoice_payments =
          (finalize_if-Keeps m payments (is_some o.source) scope invoice (λ s c. refl)
              (λ s c d. refl)).kept
            s7 ended in
        record {
          requests = requests;
          asked_for = asked_now;
          draft_kept = λ n e. own_id ∙ invoice_id-draft o.draft_id n s e numbered;
          taken = taken_now;
          amounts = amounts;
          company = own_company;
          branch = own_branch;
          keyed = own_key;
          hashed = own_hash;
          stored = rw invoices8 (
              store_invoice_effect m o.draft_id invoice s4 stored_now
              ∙ ap (λ c. with_invoice o.draft_id invoice (m.docs c)) invoices4);
          payments = rw payments8 (
              insert_payments_effect m invoice sale.branch.id o.today tendered s6 paid_now
              ∙ ap (λ c. m.docs c ++ map (stored_payment invoice sale.branch.id o.today) tendered)
                  payments6);
          before = s5;
          after = s6;
          posted = rw own_id posted_now;
          customers_before =
              (store_invoice-Keeps m customers o.draft_id invoice (λ s c. refl)).kept s4 stored_now
              ∙ head_keeps customers (λ s c. refl) (λ s c. refl) (λ s c. refl) (λ s c. refl)
                  (λ s c. refl);
          customers_after =
              (finalize_if-Keeps m customers (is_some o.source) scope invoice (λ s c. refl)
                  (λ s c d. refl)).kept
                s7 ended
              ∙ (insert_payments-Keeps m customers invoice sale.branch.id o.today tendered
                    (λ s c. refl)).kept
                  s6 paid_now;
          ledger_before =
              (store_invoice-Keeps m rows o.draft_id invoice (λ s c. refl)).kept s4 stored_now
              ∙ head_keeps rows (λ s c. refl) (λ s c. refl) (λ s c. refl) (λ s c. refl)
                  (λ s c. refl);
          ledger_after =
              (finalize_if-Keeps m rows (is_some o.source) scope invoice (λ s c. refl)
                  (λ s c d. refl)).kept
                s7 ended
              ∙ (insert_payments-Keeps m rows invoice sale.branch.id o.today tendered
                    (λ s c. refl)).kept
                  s6 paid_now;
        }

  pub write_sale-IsWritten :
      (scope : Scope) (o : Occasion) (key : RequestKey) (body : CheckoutBody) (sale : Sale)
      (tendered : List Tendered) (s : Database m) {invoice : Invoice} {t : Database m}
      → scaled sale.quoted.grand_total ≡ ok sale.amount
      → paid_sum tendered ≤ sale.amount
      → write_sale m scope o key body sale tendered s ≡ ok (invoice, t)
      → IsWritten m scope o key sale tendered s t invoice
  unfolding write_sale
  write_sale-IsWritten scope o key body sale tendered s {t = t} total fits h =
      let paid_now = paid_sum tendered in
      let kind = sale.quoted.invoice_type in
      let (requests, asked_now, h1) = split-lift (requested sale.quoted.items) _ s h in
      let (id, s1, numbered, h2) = split->>= (invoice_id m o.draft_id) _ s h1 in
      let (_, s2, took, h3) = split->>= (take_stock m scope sale.branch.id id requests) _ s1 h2 in
      let (number, s3, counted, h4) =
        split->>= (next_number m scope.company.id sale.branch.id kind) _ s2 h3 in
      let (invoice, made, h5) =
        split-lift (sale_invoice scope o key sale id number paid_now) _ s3 h4 in
      let (_, s4, ordered, h6) = split->>= (insert_order m scope o body sale invoice) _ s3 h5 in
      let (_, s5, stored_now, h7) = split->>= (store_invoice m o.draft_id invoice) _ s4 h6 in
      let (_, s6, posted_now, h8) =
        split->>= (post_sale m scope sale.customer sale.amount paid_now id sale.branch.id) _ s5
          h7 in
      let (_, s7, inserted, h9) =
        split->>= (insert_payments m invoice sale.branch.id o.today tendered) _ s6 h8 in
      let (_, s8, ended, h10) =
        split->>= (finalize_if m (is_some o.source) scope invoice) _ s7 h9 in
      let (amounts, own_id, own_company, own_key, own_hash, own_branch) =
        sale_invoice-HasAmounts scope o key sale id number paid_now total fits made in
      subst (λ r. IsWritten m scope o key sale tendered s r.1 r.0) (ok-injective h10)
        (steps-IsWritten scope o key body sale tendered requests id number invoice s s1 s2 s3 s4 s5
          s6 s7 s8 numbered took counted ordered stored_now posted_now inserted ended amounts
          asked_now own_id own_company own_branch own_key own_hash)
