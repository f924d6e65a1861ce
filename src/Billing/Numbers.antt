-- ===== src/Billing/Numbers.antt =====
-- apps/web/src/server/billing.ts, `checkout`: the number of an invoice.
use cafe_retail_software.Prelude.{none, ltb, true}
use cafe_retail_software.Billing.Cart.{same_test, is_gst}
use cafe_retail_software.Money.{Text, print}
use cafe_retail_software.Database.{Database}
use cafe_retail_software.Prelude.{
  ℕ, ◌+◌, Bool, [], ◌==◌, ◌-◌, ◌++◌, ◌&&◌, length, or_else, suc, opt_eq, ◌∷◌, zero, some, ◌||◌, not,
  is_some,
}
use cafe_retail_software.Documents.Invoices.{Sequence, InvoiceType}
use cafe_retail_software.Result.{
  Action, gets, required, validation_error, modify, pure, ◌>>=◌, ◌>>◌,
}
use cafe_retail_software.Mongo.{Mongo}

abbrev pub same_type : InvoiceType → InvoiceType → Bool
same_type a b = same_test (is_gst a) (is_gst b)

-- An active sequence of the branch, or of all branches, for invoices of the type.
abbrev pub numbers_for : ℕ → ℕ → InvoiceType → Sequence → Bool
numbers_for company branch kind r =
    (r.company_id == company)
    && (opt_eq r.branch_id (some branch) || not (is_some r.branch_id))
    && r.is_active
    && same_type r.invoice_type kind

-- `{ branch_id: -1, id: 1 }`: the greater branch first, none last, and then the smaller identifier.
unfoldable pub sorts_before : Sequence → Sequence → Bool
sorts_before a b = elim a.branch_id [
  | none ↦ not (is_some b.branch_id) && ltb a.id b.id
  | some x ↦ elim b.branch_id [ none ↦ true | some y ↦ ltb y x || ((x == y) && ltb a.id b.id) ]
]

abbrev pub count_invoice : Sequence → Sequence
count_invoice r = record r { next_number = r.next_number + 1 }

abbrev pub zeros : ℕ → Text
zeros zero = []
zeros (suc n) = b'0' ∷ zeros n

-- `String(n).padStart(padding, "0")`
unfoldable pub padded : ℕ → ℕ → Text
padded padding n = zeros (padding - length (print n)) ++ print n

-- The text of the number that a sequence has come to.
unfoldable pub number_text : Sequence → Text
unfolding padded
number_text r = r.prefix ++ (padded (or_else r.padding 5) r.next_number ++ or_else r.suffix [])

module _ (m : Mongo) where
  unfoldable pub next_number : ℕ → ℕ → InvoiceType → Action (Database m) Text
  unfolding number_text sorts_before
  next_number company branch kind = do
    let usable : Sequence → Bool = numbers_for company branch kind
    found ← gets (λ s. m.find_sorted usable sorts_before s.sequences)
    modify (λ s. record s {
      sequences = m.update_sorted usable sorts_before count_invoice s.sequences;
    })
    row ← required found validation_error
    pure (number_text row)
