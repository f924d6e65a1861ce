-- ===== src/Billing/Series.antt =====
-- The invoice numbers of a branch as one counter (billing.ts, `checkout`).
use cafe_retail_software.Result.{ok}
use cafe_retail_software.Mongo.Sorted.{find_least}
use cafe_retail_software.Database.{Database}
use cafe_retail_software.Money.{Text}
use cafe_retail_software.Billing.Numbers.{next_number, sorts_before, number_text, numbers_for}
use cafe_retail_software.Mongo.{Mongo}
use cafe_retail_software.Documents.Invoices.{Sequence, InvoiceType}
use cafe_retail_software.Prelude.{ℕ, List, suc, ◌+◌, ◌∷◌, Option, [], zero, All, ◌≡◌, ◌≢◌}

-- A counter's texts: of its count, and of the next ones.
abbrev pub numbers_from : Sequence → ℕ → ℕ → List Text
numbers_from row n zero = []
numbers_from row n (suc k) =
    number_text (record row { next_number = n }) ∷ numbers_from row (n + 1) k

abbrev pub AllDiffer : List Text → Type 0
AllDiffer [] = Unit
AllDiffer (t ∷ ts) = All (λ u. u ≢ t) ts × AllDiffer ts

-- The sequence that a branch's invoices of one type are numbered by.
abbrev pub series : ℕ → ℕ → InvoiceType → List Sequence → Option Sequence
series company branch kind rows = find_least (numbers_for company branch kind) sorts_before rows

module _ (m : Mongo) where
  -- Numbers that a branch gives to its invoices of one type, one after the other; in between only what
  -- leaves the branch's sequence alone happens.
  pub data Gives (company branch : ℕ) (kind : InvoiceType)
      : Database m → List Text → Database m → Type 0 where
    none_given : (s : Database m) → Gives company branch kind s [] s
    next_given :
        {s t u v : Database m} {text : Text} {texts : List Text}
        → next_number m company branch kind s ≡ ok (text, t)
        → series company branch kind (m.docs u.sequences)
          ≡ series company branch kind (m.docs t.sequences)
        → Gives company branch kind u texts v
        → Gives company branch kind s (text ∷ texts) v
