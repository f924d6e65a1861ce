-- ===== src/Billing/Again.antt =====
-- A checkout that is asked for again (billing.ts, `checkout`: the lookup by `idempotency_key`).
use cafe_retail_software.Billing.Outcome.{checkout-IsIssued}
use cafe_retail_software.Database.{Database}
use cafe_retail_software.Documents.Invoices.{Invoice}
use cafe_retail_software.Security.{Scope, sellers}
use cafe_retail_software.Replay.{RequestKey}
use cafe_retail_software.Billing.Checkout.{checkout, issue_once}
use cafe_retail_software.Billing.Sale.{Occasion, CheckoutBody, issued_with}
use cafe_retail_software.Prelude.{
  ℕ, List, ◌≡◌, find_first, false, none, ◌++◌, ◌∷◌, true, not, [], some, is_some, ◌||◌, ◌∙◌,
  find_first-append_none, opt_eq, arith, leb, ◌&&◌, ◌≢◌, refl, ◌==◌,
}
use cafe_retail_software.Result.{ok, err, idempotency_conflict}
use cafe_retail_software.Mongo.{Mongo}

module _ (m : Mongo) where
  -- The invoice of a key is found after it is issued.
  found_again :
      (company : ℕ) (key other : RequestKey) (invoice : Invoice) (before : List Invoice)
      (c : m.Collection Invoice)
      → other.id ≡ key.id
      → invoice.company_id ≡ company
      → invoice.idempotency_key ≡ key.id
      → find_first (issued_with company key) before ≡ none
      → m.docs c ≡ before ++ (invoice ∷ [])
      → m.find_one (issued_with company other) c ≡ some invoice
  found_again company key other invoice before c same own keyed fresh stored =
      let fresh_too : find_first (issued_with company other) before ≡ none = rw (← same) at fresh in
      m.find_one-eq (issued_with company other) c
      ∙ rw stored (
          find_first-append_none (issued_with company other) before (invoice ∷ []) fresh_too
          ∙ ground arith)

  -- After a checkout that issued an invoice and not a draft, a request of the company with the same key, of a
  -- user who sells and may use the invoice's branch, issues nothing: with the same body it returns the same
  -- invoice and leaves the database as it is, with another body it is refused.
  pub checkout_again :
      (scope other : Scope) (o o' : Occasion) (key key' : RequestKey) (body body' : CheckoutBody)
      (s : Database m) {invoice : Invoice} {t : Database m}
      → checkout m scope o key body s ≡ ok ((invoice, false), t)
      → o.draft_id ≡ none
      → other.company.id ≡ scope.company.id
      → sellers other.user.role ≡ true
      → (not (is_some other.user.branch_id) || opt_eq other.user.branch_id (some invoice.branch_id))
        ≡ true
      → key'.id ≡ key.id
      → (leb 8 key'.length && leb key'.length 150) ≡ true
      → (key'.hash ≡ key.hash → checkout m other o' key' body' t ≡ ok ((invoice, true), t))
        × (key'.hash ≢ key.hash → checkout m other o' key' body' t ≡ err idempotency_conflict)
  unfolding checkout issue_once
  checkout_again scope other o o' key key' body body' s {invoice = invoice} {t = t} h no_draft
        company may branch same good =
      let i = checkout-IsIssued m scope o key body s h in
      let found : m.find_one (issued_with other.company.id key') t.invoices ≡ some invoice =
        rw company (
          found_again scope.company.id key key' invoice (m.docs s.invoices) t.invoices same
            i.written.company i.written.keyed i.fresh (i.written.stored ∙ rw no_draft refl)) in
      let hashed = i.written.hashed in
      (
        λ e.
            let hit : (invoice.request_hash == key'.hash) ≡ true = ground (arith, hashed) in
            rw (good, may, found, hit, branch) refl,
        λ e.
            let miss : (invoice.request_hash == key'.hash) ≡ false = ground (arith, hashed) in
            rw (good, may, found, miss) refl,
      )
