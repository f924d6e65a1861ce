-- ===== src/Billing/Drafted.antt =====
-- A draft is issued once (financial.ts, the action `issue`).
use mathlib.Core.Path.{subst}
use mathlib.Core.Option.{some-injective}
use cafe_retail_software.Billing.Outcome.{IsIssued, checkout-IsIssued}
use cafe_retail_software.Result.{
  ok, ensure->>-eq-ok, err, forbidden, validation_error, Action, ◌>>=◌, required, not_found, Error,
  require_value,
}
use cafe_retail_software.Database.{Database, required_row->>=-eq-ok, found_row, required_row}
use cafe_retail_software.Billing.Tender.{PaymentsInput, paid_sum}
use cafe_retail_software.Replay.{RequestKey}
use cafe_retail_software.Documents.Invoices.{Invoice}
use cafe_retail_software.Billing.{is_draft, invoice_in_scope, invoice_of}
use cafe_retail_software.Billing.Checkout.{checkout, issue_once, issue, require_draft}
use cafe_retail_software.Billing.Drafts.{issue_draft, draft_body}
use cafe_retail_software.Security.{Scope, sellers, in_scope}
use cafe_retail_software.Mongo.{Mongo}
use cafe_retail_software.Billing.Sale.{sale_status, Occasion, issued_with, CheckoutBody}
use cafe_retail_software.Prelude.{
  Distinct, find_first-Distinct, find_first-modify_first_same, Bool, List, ℕ, ◌≡◌, false,
  find_first, true, Bool-cases, some, arith, ◌==◌, none, modify_first, inl, leb, ◌∷◌,
  find_first-holds, ◌&&◌, inr, [], refl, ◌∙◌, ap, sym,
}

-- What a narrower search finds, if a wider one finds it first.
find_first-narrow :
    {A : Type 0} (p q : A → Bool) (xs : List A) (a : A)
    → ((x : A) → p x ≡ true → q x ≡ true)
    → find_first q xs ≡ some a
    → p a ≡ true
    → find_first p xs ≡ some a
find_first-narrow p q [] a wider h own = ground arith
find_first-narrow p q (x ∷ xs) a wider h own = elim (Bool-cases (q x)) [
  | inl t ↦ let same : x ≡ a = some-injective x a (rw t at h) in rw (same, own) refl
  | inr n ↦ elim (Bool-cases (p x)) [
    | inl y ↦ let clash = wider x y in absurd (ground arith)
    | inr k ↦ rw k (find_first-narrow p q xs a wider (rw n at h) own)
  ]
]

>>=-err :
    {S A B : Type 0} (action : Action S A) (f : A → Action S B) (s : S) {e : Error}
    → action s ≡ err e
    → (action >>= f) s ≡ err e
>>=-err action f s h = ap (λ r. ((λ u. r) >>= f) s) h

sale_status-is_draft : (amount paid_now : ℕ) → is_draft (sale_status amount paid_now) ≡ false
unfolding sale_status
sale_status-is_draft amount paid_now = elim (Bool-cases (paid_now == amount)) [
  | inl e ↦ rw e refl
  | inr n ↦ elim (Bool-cases (paid_now == 0)) [ inl z ↦ rw (n, z) refl | inr k ↦ rw (n, k) refl ]
]

in_scope_at :
    (scope : Scope) (id : ℕ) (invoice : Invoice) (branch : ℕ)
    → invoice.company_id ≡ scope.company.id
    → invoice.branch_id ≡ branch
    → invoice.id ≡ id
    → in_scope scope scope.company.id branch ≡ true
    → invoice_in_scope scope id invoice ≡ true
in_scope_at scope id invoice branch company own kept h =
    let there : in_scope scope invoice.company_id invoice.branch_id ≡ true =
      subst (λ c. in_scope scope c invoice.branch_id ≡ true) (sym company)
        (subst (λ b. in_scope scope scope.company.id b ≡ true) (sym own) h) in
    let named : (invoice.id == id) ≡ true = ground arith in rw (there, named) refl

module _ (m : Mongo) where
  found_row_goes :
      {R B : Type 0} (p : R → Bool) (coll : Database m → m.Collection R)
      (f : R → Action (Database m) B) (s : Database m) (a : R)
      → m.find_one p (coll s) ≡ some a
      → (required_row m p coll >>= f) s ≡ f a s
  found_row_goes p coll f s a h = ap (λ r. (required r not_found >>= f) s) h

  -- The occasion of the issue of a draft.
  abbrev at_issue : ℕ → ℕ → ℕ → Occasion
  at_issue today fresh id = record {
    today = today;
    fresh_id = fresh;
    at_cafe = false;
    draft_id = some id;
    source = none;
  }

  issue_draft-IsIssued :
      (scope : Scope) (today fresh id : ℕ) (key : RequestKey) (inputs : PaymentsInput)
      (s : Database m) {invoice : Invoice} {t : Database m}
      → issue_draft m scope today fresh id key inputs s ≡ ok ((invoice, false), t)
      → (row : Invoice) × IsIssued m scope
          (at_issue today fresh id)
          key
          (draft_body row inputs)
          s
          t
          invoice
  unfolding issue_draft
  issue_draft-IsIssued scope today fresh id key inputs s h =
      let (may, h1) = ensure->>-eq-ok (sellers scope.user.role) forbidden _ s h in
      elim (required_row->>=-eq-ok m (invoice_in_scope scope id) (λ s. s.invoices) _ s h1) [
        | found_row row passes one h2 ↦ (
          row,
          checkout-IsIssued m scope (at_issue today fresh id) key (draft_body row inputs) s h2,
        )
      ]

  issue_stale :
      (scope : Scope) (o : Occasion) (key : RequestKey) (body : CheckoutBody) (t : Database m)
      (invoice : Invoice) (id : ℕ)
      → o.draft_id ≡ some id
      → m.find_one (invoice_in_scope scope id) t.invoices ≡ some invoice
      → is_draft invoice.status ≡ false
      → issue_once m scope o key body none t ≡ err validation_error
  unfolding issue_once issue require_draft
  issue_stale scope o key body t invoice id named there issued =
      let stale : require_draft m scope (some id) t ≡ err validation_error =
        ap (λ r. (required r validation_error >>= λ draft. require_value (is_draft draft.status)) t)
          there
        ∙ rw issued refl in
      >>=-err (issue m scope o key body) _ t
        (>>=-err (require_draft m scope o.draft_id) _ t (rw named stale))

  -- An invoice that is not a draft is not issued under a key that no invoice has.
  issue_draft-refuses :
      (scope : Scope) (today fresh id : ℕ) (key : RequestKey) (inputs : PaymentsInput)
      (t : Database m) (invoice : Invoice)
      → sellers scope.user.role ≡ true
      → (leb 8 key.length && leb key.length 150) ≡ true
      → find_first (invoice_in_scope scope id) (m.docs t.invoices) ≡ some invoice
      → is_draft invoice.status ≡ false
      → find_first (issued_with scope.company.id key) (m.docs t.invoices) ≡ none
      → issue_draft m scope today fresh id key inputs t ≡ err validation_error
  unfolding issue_draft checkout issue_once issue require_draft
  issue_draft-refuses scope today fresh id key inputs t invoice may good found issued free =
      let there = m.find_one-eq (invoice_in_scope scope id) t.invoices ∙ found in
      let new = m.find_one-eq (issued_with scope.company.id key) t.invoices ∙ free in
      rw may (
        found_row_goes (invoice_in_scope scope id) (λ s. s.invoices) _ t invoice there
        ∙ rw (good, new)
            (issue_stale scope (at_issue today fresh id) key (draft_body invoice inputs) t invoice
              id refl there issued))

  -- The search that issued a draft finds the invoice in its place.
  issued_in_place :
      (scope : Scope) (id : ℕ) (d invoice : Invoice) (rows : List Invoice)
      → Distinct (λ r. r.id) rows
      → find_first (invoice_in_scope scope id) rows ≡ some d
      → invoice_in_scope scope id invoice ≡ true
      → find_first
          (invoice_in_scope scope id)
          (modify_first (invoice_of id scope.company.id) (λ r. invoice) rows)
        ≡ some invoice
  issued_in_place scope id d invoice rows distinct found own =
      let passes = find_first-holds (invoice_in_scope scope id) rows found in
      let by_id = find_first-Distinct (λ r. r.id) (invoice_in_scope scope id) rows distinct found in
      let same : d.id ≡ id = ground arith in
      let named : invoice_of id scope.company.id d ≡ true = ground arith in
      let of_it =
        find_first-narrow (invoice_of id scope.company.id) (λ r. r.id == d.id) rows d
          (λ r h. ground arith) by_id named in
      find_first-modify_first_same (invoice_of id scope.company.id) (invoice_in_scope scope id)
        (λ r. invoice) rows d of_it found own

  -- A draft is issued once. Where no two invoices have the same identifier, the issue of a draft puts the invoice,
  -- which is no draft, in its place under its identifier and leaves every other invoice; and a later request of
  -- the scope to issue the draft, under a key that no invoice has, is refused.
  pub issue_draft_once :
      (scope : Scope) (today fresh id : ℕ) (key : RequestKey) (inputs : PaymentsInput)
      (s : Database m) {invoice : Invoice} {t : Database m} (later fresh' : ℕ) (key' : RequestKey)
      (inputs' : PaymentsInput)
      → Distinct (λ r. r.id) (m.docs s.invoices)
      → issue_draft m scope today fresh id key inputs s ≡ ok ((invoice, false), t)
      → (leb 8 key'.length && leb key'.length 150) ≡ true
      → find_first (issued_with scope.company.id key') (m.docs t.invoices) ≡ none
      → (d : Invoice) × (find_first (invoice_in_scope scope id) (m.docs s.invoices) ≡ some d)
        × (is_draft d.status ≡ true)
        × (is_draft invoice.status ≡ false)
        × (invoice.id ≡ id)
        × (m.docs t.invoices
            ≡ modify_first (invoice_of id scope.company.id) (λ r. invoice) (m.docs s.invoices))
        × (issue_draft m scope later fresh' id key' inputs' t ≡ err validation_error)
  issue_draft_once scope today fresh id key inputs s {invoice = invoice} {t = t} later fresh' key'
        inputs' distinct h good free =
      let (row, i) = issue_draft-IsIssued scope today fresh id key inputs s h in
      let w = i.written in
      let (d, found, still) = i.drafted id refl in
      let kept : invoice.id ≡ id = w.draft_kept id refl in
      let company : invoice.company_id ≡ scope.company.id = w.company in
      let stored : m.docs t.invoices
          ≡ modify_first (invoice_of id scope.company.id) (λ r. invoice) (m.docs s.invoices) =
        w.stored
        ∙ ap (λ c. modify_first (invoice_of id c) (λ r. invoice) (m.docs s.invoices)) company in
      let issued : is_draft invoice.status ≡ false =
        rw w.amounts.status_of (sale_status-is_draft i.sale.amount (paid_sum i.tendered)) in
      let own : invoice_in_scope scope id invoice ≡ true =
        in_scope_at scope id invoice i.sale.branch.id company (w.branch ∙ i.priced.one_branch) kept
          i.priced.own_branch in
      (
        d,
        found,
        still,
        issued,
        kept,
        stored,
        issue_draft-refuses scope later fresh' id key' inputs' t invoice i.may_sell good
            (rw stored (issued_in_place scope id d invoice (m.docs s.invoices) distinct found own))
            issued free,
      )
