-- ===== src/Billing/Totals.antt =====
-- The total of a quote is the sum of its lines' totals (billing.ts, `quote`).
use cafe_retail_software.Documents.{Branch}
use cafe_retail_software.Security.Isolation.{authorized_branch_scope}
use mathlib.Core.Path.{subst}
use cafe_retail_software.Prelude.Int.{pos, ◌-ℤ◌}
use cafe_retail_software.Database.{Database}
use cafe_retail_software.Billing.Tax.{sum_texts}
use cafe_retail_software.Money.{Text, decimal}
use cafe_retail_software.Documents.Invoices.{InvoiceItem, InvoiceType}
use cafe_retail_software.Security.{Scope, authorized_branch, allow, sellers}
use cafe_retail_software.Prelude.{List, ℕ, Option, Bool, ◌≡◌, arith}
use cafe_retail_software.Billing.Cart.{Quote}
use cafe_retail_software.Documents.Invoices.{QuoteBody}
use cafe_retail_software.Billing.Quote.{quote_totals, quote, total_of, quote_in}
use cafe_retail_software.Result.Keeps.{Yields, Yields-skip, Yields-step}
use cafe_retail_software.Result.{ok, lift->>=-eq-ok, reads, >>=-eq-ok, ran, ok-injective, lift}
use cafe_retail_software.Mongo.{Mongo}

-- The lines' totals, as they are read from their texts, and the text of their sum.
pub record IsTotalled (q : Quote) : Type 0 where
  pub total : ℕ
  pub summed : sum_texts (λ i. i.line_total) q.items ≡ ok total
  pub printed : decimal (pos total) ≡ ok q.grand_total

module _ (m : Mongo) where
  total_of-eq-ok :
      (f : InvoiceItem → Text) (items : List InvoiceItem) (s : Database m) {text : Text}
      {t : Database m}
      → total_of m f items s ≡ ok (text, t)
      → (n : ℕ) × (sum_texts f items ≡ ok n) × (decimal (pos n) ≡ ok text)
  unfolding total_of
  total_of-eq-ok f items s h = elim (lift->>=-eq-ok (sum_texts f items) _ s h) [
    | reads n summed h1 ↦ (n, summed, ground arith)
  ]

  quote_totals-IsTotalled :
      (branch : ℕ) (customer : Option ℕ) (kind : InvoiceType) (lines : ℕ × ℕ × List InvoiceItem)
      → Yields IsTotalled (quote_totals m branch customer kind lines)
  unfolding quote_totals
  quote_totals-IsTotalled branch customer kind lines =
      Yields-skip IsTotalled (lift (decimal (pos lines.0))) _ λ a.
        Yields-skip IsTotalled (lift (decimal (pos lines.1))) _ λ b.
          Yields-skip IsTotalled (lift (decimal (pos lines.0 -ℤ pos lines.1))) _ λ c.
            Yields-skip IsTotalled (total_of m (λ i. i.cgst_total) lines.2) _ λ d.
              Yields-skip IsTotalled (total_of m (λ i. i.sgst_total) lines.2) _ λ e.
                Yields-skip IsTotalled (total_of m (λ i. i.igst_total) lines.2) _ λ f.
                  Yields-skip IsTotalled (total_of m (λ i. i.cess_total) lines.2) _ λ g. record {
                    yields = λ s h.
                        elim (>>=-eq-ok (total_of m (λ i. i.line_total) lines.2) _ s h) [
                          | ran text u done h1 ↦
                              let (n, summed, printed) =
                                total_of-eq-ok (λ i. i.line_total) lines.2 s done in
                              subst (λ r. IsTotalled r.0) (ok-injective h1)
                                (record { total = n; summed = summed; printed = printed })
                        ];
                  }

  quote_in-IsTotalled :
      (scope : Scope) (today : ℕ) (at_cafe : Bool) (body : QuoteBody) (branch : Branch)
      → Yields IsTotalled (quote_in m scope today at_cafe body branch)
  unfolding quote_in
  quote_in-IsTotalled scope today at_cafe body branch =
      search (Yields-skip, quote_totals-IsTotalled) depth 60

  pub quote-IsTotalled :
      (scope : Scope) (today : ℕ) (at_cafe : Bool) (body : QuoteBody)
      → Yields IsTotalled (quote m scope today at_cafe body)
  unfolding quote
  quote-IsTotalled scope today at_cafe body = search (Yields-skip, quote_in-IsTotalled)

  quote_totals-branch :
      (wanted branch : ℕ) (customer : Option ℕ) (kind : InvoiceType)
      (lines : ℕ × ℕ × List InvoiceItem)
      → branch ≡ wanted
      → Yields (λ q. q.branch_id ≡ wanted) (quote_totals m branch customer kind lines)
  unfolding quote_totals
  quote_totals-branch wanted branch customer kind lines same =
      let P = λ (q : Quote). q.branch_id ≡ wanted in
      Yields-skip P (lift (decimal (pos lines.0))) _ λ a.
        Yields-skip P (lift (decimal (pos lines.1))) _ λ b.
          Yields-skip P (lift (decimal (pos lines.0 -ℤ pos lines.1))) _ λ c.
            Yields-skip P (total_of m (λ i. i.cgst_total) lines.2) _ λ d.
              Yields-skip P (total_of m (λ i. i.sgst_total) lines.2) _ λ e.
                Yields-skip P (total_of m (λ i. i.igst_total) lines.2) _ λ f.
                  Yields-skip P (total_of m (λ i. i.cess_total) lines.2) _ λ g.
                    Yields-skip P (total_of m (λ i. i.line_total) lines.2) _
                      λ text. record { yields = λ s h. subst (λ r. P r.0) (ok-injective h) same }

  pub authorized_branch-id :
      (scope : Scope) (id : ℕ) → Yields (λ b. b.id ≡ id) (authorized_branch m scope id)
  authorized_branch-id scope id = record {
    yields = λ s h. let (same, _, _, _, _) = authorized_branch_scope m scope id s h in same;
  }

  quote_in-branch :
      (scope : Scope) (today : ℕ) (at_cafe : Bool) (body : QuoteBody) (branch : Branch)
      → branch.id ≡ body.branch_id
      → Yields (λ q. q.branch_id ≡ body.branch_id) (quote_in m scope today at_cafe body branch)
  unfolding quote_in
  quote_in-branch scope today at_cafe body branch same =
      search (Yields-skip, quote_totals-branch) depth 60

  pub quote-branch :
      (scope : Scope) (today : ℕ) (at_cafe : Bool) (body : QuoteBody)
      → Yields (λ q. q.branch_id ≡ body.branch_id) (quote m scope today at_cafe body)
  unfolding quote
  quote-branch scope today at_cafe body =
      let P = λ (q : Quote). q.branch_id ≡ body.branch_id in
      Yields-skip P (allow scope.user sellers) _ λ done.
        Yields-step (λ b. b.id ≡ body.branch_id) P (authorized_branch m scope body.branch_id) _
          (authorized_branch-id scope body.branch_id)
          λ branch same. quote_in-branch scope today at_cafe body branch same
