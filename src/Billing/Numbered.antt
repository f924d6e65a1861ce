-- ===== src/Billing/Numbered.antt =====
-- The numbers that a sequence gives are all different (billing.ts, `checkout`).
use mathlib.Core.Path.{subst}
use cafe_retail_software.Database.{Database}
use cafe_retail_software.Money.Exact.{print_digits}
use cafe_retail_software.Money.{Text, number_from, print}
use cafe_retail_software.Documents.Invoices.{Sequence, InvoiceType}
use cafe_retail_software.Prelude.{
  Bool, ℕ, ◌≡◌, or_else, List, ◌-◌, [], ◌++◌, length, some, arith, sym, suc, zero, ◌∷◌, ◌∙◌, ap,
  Option-cases, refl, inl, inr,
}
use cafe_retail_software.Billing.Numbers.{
  number_text, padded, zeros, next_number, numbers_for, sorts_before, count_invoice,
}
use mathlib.Core.List.{append_cancel_left, append_cancel_right}
use cafe_retail_software.Result.{ok, ok-injective}
use cafe_retail_software.Mongo.Sorted.{least_at, find_least, modify_least, modify_at}
use cafe_retail_software.Mongo.{Mongo}

module _ {R : Type 0} (p : R → Bool) (before : R → R → Bool) (f : R → R)
    (same : (x : R) → p (f x) ≡ p x) (first : (x y : R) → before (f x) y ≡ before x y)
    (second : (x y : R) → before x (f y) ≡ before x y) where
  -- What is found stays first when it is written.
  least_at-modify_at :
      (xs : List R) (i : ℕ) (r : R)
      → least_at p before xs ≡ some (i, r)
      → least_at p before (modify_at i f xs) ≡ some (i, f r)
  least_at-modify_at [] i r h = absurd (ground arith)
  least_at-modify_at (x ∷ xs) zero r h = elim (Option-cases (least_at p before xs)) [
    | inl none_there ↦ ground (arith, same x)
    | inr ((j, y), there) ↦ ground (arith, same x, second y x)
  ]
  least_at-modify_at (x ∷ xs) (suc i) r h = elim (Option-cases (least_at p before xs)) [
    | inl none_there ↦ absurd (ground arith)
    | inr ((j, y), there) ↦
        let found : least_at p before xs ≡ some (i, r) = ground arith in
        let later = least_at-modify_at xs i r found in ground (arith, first r x)
  ]

  pub find_least-modify_least :
      (xs : List R) (r : R)
      → find_least p before xs ≡ some r
      → find_least p before (modify_least p before f xs) ≡ some (f r)
  find_least-modify_least xs r h = elim (Option-cases (least_at p before xs)) [
    | inl none_there ↦ absurd (ground arith)
    | inr ((i, y), there) ↦
        let own : y ≡ r = ground arith in
        let later = least_at-modify_at xs i y there in
        rw there (rw later (ap (λ z. some (f z)) own))
  ]

number_from-zeros : (n : ℕ) (t : Text) → number_from 0 (zeros n ++ t) ≡ number_from 0 t
number_from-zeros zero t = refl
number_from-zeros (suc n) t = number_from-zeros n t

number_from-padded : (padding n : ℕ) → number_from 0 (padded padding n) ≡ n
unfolding padded
number_from-padded padding n =
    number_from-zeros (padding - length (print n)) (print n) ∙ (print_digits n).1

-- A sequence gives two invoices the same number only at the same count.
pub number_text-injective :
    (r : Sequence) (n k : ℕ)
    → number_text (record r { next_number = n }) ≡ number_text (record r { next_number = k })
    → n ≡ k
unfolding number_text
number_text-injective r n k h =
    let padding = or_else r.padding 5 in
    let middle =
      append_cancel_right (padded padding n) (padded padding k) (or_else r.suffix [])
        (append_cancel_left r.prefix _ _ h) in
    sym (number_from-padded padding n) ∙ (ap (number_from 0) middle ∙ number_from-padded padding k)

module _ (m : Mongo) where
  -- What a number that is given is made of.
  pub record IsNumbered (company branch : ℕ) (kind : InvoiceType) (s t : Database m) (number : Text)
      : Type 0 where
    pub row : Sequence
    pub found :
        find_least (numbers_for company branch kind) sorts_before (m.docs s.sequences) ≡ some row
    pub text : number ≡ number_text row
    pub written :
        m.docs t.sequences
        ≡ modify_least
            (numbers_for company branch kind)
            sorts_before
            count_invoice
            (m.docs s.sequences)

  pub next_number-IsNumbered :
      (company branch : ℕ) (kind : InvoiceType) (s : Database m) {number : Text} {t : Database m}
      → next_number m company branch kind s ≡ ok (number, t)
      → IsNumbered company branch kind s t number
  unfolding next_number
  next_number-IsNumbered company branch kind s h =
      let usable = numbers_for company branch kind in
      let s1 : Database m = record s {
        sequences = m.update_sorted usable sorts_before count_invoice s.sequences;
      } in
      elim (Option-cases (m.find_sorted usable sorts_before s.sequences)) [
        | inl missing ↦ absurd (ground arith)
        | inr (row, one) ↦
            let done : ok (number_text row, s1) ≡ ok _ = rw one at h in
            subst (λ r. IsNumbered company branch kind s r.1 r.0) (ok-injective done)
              (record {
                row = row;
                found = sym (m.find_sorted-eq usable sorts_before s.sequences) ∙ one;
                text = refl;
                written = m.docs-update_sorted usable sorts_before count_invoice s.sequences;
              })
      ]
