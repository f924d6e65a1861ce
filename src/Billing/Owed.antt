-- ===== src/Billing/Owed.antt =====
-- What a customer owes after a checkout (billing.ts, `checkout`; ledger.ts, `postLedger`).
use cafe_retail_software.Billing.Tender.{paid_sum}
use cafe_retail_software.Billing.Outcome.{checkout-IsIssued}
use cafe_retail_software.Money.{scaled}
use mathlib.Core.Option.{some-injective}
use cafe_retail_software.Documents.Invoices.{Invoice}
use cafe_retail_software.Replay.{RequestKey}
use cafe_retail_software.Prelude.Int.{ℤ, ◌+ℤ◌, pos, ◌-ℤ◌, int_laws}
use cafe_retail_software.Ledger.{Posting, post_ledger, customer_of, outstanding, set_balance}
use mathlib.Core.Path.{subst}
use cafe_retail_software.Ledger.Balance.{IsBalanced, post_ledger-IsBalanced, post_ledger-IsPosted}
use cafe_retail_software.Money.Bounds.{amount_limit, scaled_bound}
use cafe_retail_software.Database.{Database}
use cafe_retail_software.Documents.{Customer, invoice_entry, payment_entry, LedgerEntry}
use cafe_retail_software.Prelude.{
  ℕ, ◌<◌, ◌≡◌, ◌≤◌, some, suc, arith, zero, List, find_first, false, sym, ◌∙◌,
  find_first-modify_first, find_first-holds, Option-cases, ap, inl, inr,
}
use cafe_retail_software.Security.{Scope}
use cafe_retail_software.Billing.Checkout.{post_paid, post_sale, checkout}
use cafe_retail_software.Billing.Sale.{Occasion, CheckoutBody}
use cafe_retail_software.Result.{ok, ok-injective, >>=-eq-ok, ran}
use cafe_retail_software.Billing.Priced.{named_by}
use cafe_retail_software.Mongo.{Mongo}

module _ (m : Mongo) where
  post_paid-IsBalanced :
      (scope : Scope) (customer paid_now reference branch : ℕ) (s : Database m) {t : Database m}
      → paid_now < amount_limit
      → post_paid m scope customer paid_now reference branch s ≡ ok (tt, t)
      → IsBalanced scope.company.id customer (m.docs s.customers) (m.docs s.ledger)
      → IsBalanced scope.company.id customer (m.docs t.customers) (m.docs t.ledger)
  unfolding post_paid
  post_paid-IsBalanced scope customer zero reference branch s few h b =
      subst (λ p. IsBalanced scope.company.id customer (m.docs p.1.customers) (m.docs p.1.ledger))
        (ok-injective h) b
  post_paid-IsBalanced scope customer (suc n) reference branch s few h b =
      let p : Posting = record {
        debit = 0;
        credit = suc n;
        entry_type = payment_entry;
        reference_id = reference;
        branch_id = branch;
      } in
      elim (>>=-eq-ok (post_ledger m scope customer p) _ s h) [
        | ran entry u posted h1 ↦
            subst
              (λ r. IsBalanced scope.company.id customer (m.docs r.1.customers) (m.docs r.1.ledger))
              (ok-injective h1)
              (post_ledger-IsBalanced m scope customer p s (omega arith) few posted b)
      ]

  post_sale-IsBalanced :
      (scope : Scope) (c : Customer) (amount paid_now reference branch : ℕ) (s : Database m)
      {t : Database m}
      → amount < amount_limit
      → paid_now ≤ amount
      → post_sale m scope (some c) amount paid_now reference branch s ≡ ok (tt, t)
      → IsBalanced scope.company.id c.id (m.docs s.customers) (m.docs s.ledger)
      → IsBalanced scope.company.id c.id (m.docs t.customers) (m.docs t.ledger)
  unfolding post_sale
  post_sale-IsBalanced scope c amount paid_now reference branch s few fits h b =
      let p : Posting = record {
        debit = amount;
        credit = 0;
        entry_type = invoice_entry;
        reference_id = reference;
        branch_id = branch;
      } in
      elim (>>=-eq-ok (post_ledger m scope c.id p) _ s h) [
        | ran entry u posted h1 ↦
            post_paid-IsBalanced scope c.id paid_now reference branch u (omega arith) h1
              (post_ledger-IsBalanced m scope c.id p s few (omega arith) posted b)
      ]

-- A customer who is found under an identifier, and what the customer owes.
abbrev pub Owes : ℕ → ℕ → ℤ → List Customer → Type 0
Owes company id balance customers =
    (c : Customer) × (find_first (customer_of company id) customers ≡ some c)
    × (outstanding c ≡ ok balance)

credit_none : (a : ℤ) (n : ℕ) → a +ℤ pos n -ℤ pos 0 ≡ a +ℤ pos n
credit_none a n = omega int_laws

debit_none : (a : ℤ) (n k : ℕ) → a +ℤ pos n +ℤ pos 0 -ℤ pos k ≡ a +ℤ pos n -ℤ pos k
debit_none a n k = omega int_laws

pay_none : (a : ℤ) (n : ℕ) → a +ℤ pos n ≡ a +ℤ pos n -ℤ pos 0
pay_none a n = omega int_laws

module _ (m : Mongo) where
  post_ledger-Owes :
      (scope : Scope) (id : ℕ) (p : Posting) (balance : ℤ) (s : Database m) {entry : LedgerEntry}
      {t : Database m}
      → post_ledger m scope id p s ≡ ok (entry, t)
      → Owes scope.company.id id balance (m.docs s.customers)
      → Owes scope.company.id id (balance +ℤ pos p.debit -ℤ pos p.credit) (m.docs t.customers)
  post_ledger-Owes scope id p balance s h (c, found, owes) =
      let posted = post_ledger-IsPosted m scope id p s h in
      let own = customer_of scope.company.id id in
      let same : posted.before ≡ c = some-injective _ _ (sym posted.found ∙ found) in
      let old : posted.old_balance ≡ balance =
        ok-injective (sym posted.old_owed ∙ (rw same owes)) in
      let f =
        set_balance (posted.old_balance +ℤ pos p.debit -ℤ pos p.credit) posted.text
          posted.available in
      (
        f posted.before,
        rw posted.customers_written (
            find_first-modify_first own f (m.docs s.customers) posted.before posted.found
              (find_first-holds own (m.docs s.customers) posted.found)),
        ap (λ b. ok (b +ℤ pos p.debit -ℤ pos p.credit)) old,
      )

  post_paid-Owes :
      (scope : Scope) (id amount paid_now reference branch : ℕ) (balance : ℤ) (s : Database m)
      {t : Database m}
      → post_paid m scope id paid_now reference branch s ≡ ok (tt, t)
      → Owes scope.company.id id (balance +ℤ pos amount) (m.docs s.customers)
      → Owes scope.company.id id (balance +ℤ pos amount -ℤ pos paid_now) (m.docs t.customers)
  unfolding post_paid
  post_paid-Owes scope id amount zero reference branch balance s h o =
      subst (λ p. Owes scope.company.id id (balance +ℤ pos amount -ℤ pos 0) (m.docs p.1.customers))
        (ok-injective h) (rw (← pay_none balance amount) o)
  post_paid-Owes scope id amount (suc n) reference branch balance s h o =
      let p : Posting = record {
        debit = 0;
        credit = suc n;
        entry_type = payment_entry;
        reference_id = reference;
        branch_id = branch;
      } in
      elim (>>=-eq-ok (post_ledger m scope id p) _ s h) [
        | ran entry u posted h1 ↦
            subst
              (λ r.
                Owes scope.company.id id (balance +ℤ pos amount -ℤ pos (suc n))
                  (m.docs r.1.customers))
              (ok-injective h1)
              (rw (debit_none balance amount (suc n)) at
                (post_ledger-Owes scope id p (balance +ℤ pos amount) s posted o))
      ]

  post_sale-Owes :
      (scope : Scope) (c : Customer) (amount paid_now reference branch : ℕ) (balance : ℤ)
      (s : Database m) {t : Database m}
      → post_sale m scope (some c) amount paid_now reference branch s ≡ ok (tt, t)
      → Owes scope.company.id c.id balance (m.docs s.customers)
      → Owes scope.company.id c.id (balance +ℤ pos amount -ℤ pos paid_now) (m.docs t.customers)
  unfolding post_sale
  post_sale-Owes scope c amount paid_now reference branch balance s h o =
      let p : Posting = record {
        debit = amount;
        credit = 0;
        entry_type = invoice_entry;
        reference_id = reference;
        branch_id = branch;
      } in
      elim (>>=-eq-ok (post_ledger m scope c.id p) _ s h) [
        | ran entry u posted h1 ↦
            post_paid-Owes scope c.id amount paid_now reference branch balance u h1 (
              rw (credit_none balance amount) at (post_ledger-Owes scope c.id p balance s posted o))
      ]

  -- A checkout of a customer raises what the customer owes by the invoice's total less what is paid of it, and
  -- the stored balance stays the opening balance with all the rows of the customer's ledger, if it was.
  pub checkout-Owes :
      (scope : Scope) (o : Occasion) (key : RequestKey) (body : CheckoutBody) (id : ℕ) (balance : ℤ)
      (s : Database m) {invoice : Invoice} {t : Database m}
      → checkout m scope o key body s ≡ ok ((invoice, false), t)
      → body.cart.customer_id ≡ some id
      → Owes scope.company.id id balance (m.docs s.customers)
      → (amount : ℕ) × (paid_now : ℕ) × (scaled invoice.grand_total ≡ ok amount)
        × (scaled invoice.paid_amount ≡ ok paid_now)
        × Owes scope.company.id id (balance +ℤ pos amount -ℤ pos paid_now) (m.docs t.customers)
        × (IsBalanced scope.company.id id (m.docs s.customers) (m.docs s.ledger)
            → IsBalanced scope.company.id id (m.docs t.customers) (m.docs t.ledger))
  checkout-Owes scope o key body id balance s {invoice = invoice} {t = t} h who owes =
      let i = checkout-IsIssued m scope o key body s h in
      let w = i.written in
      let few = scaled_bound i.sale.quoted.grand_total i.priced.reads_total in
      let named : named_by i.sale.customer ≡ some id = i.priced.named ∙ who in
      elim (Option-cases i.sale.customer) [
        | inl nobody ↦ absurd (ground arith)
        | inr (c, somebody) ↦
            let own : c.id ≡ id = some-injective _ _ (rw somebody at named) in
            let posted = rw somebody at w.posted in
            (
              i.sale.amount,
              paid_sum i.tendered,
              w.amounts.total_read,
              w.amounts.paid_read,
              subst
                  (λ k.
                    Owes scope.company.id k
                      (balance +ℤ pos i.sale.amount -ℤ pos (paid_sum i.tendered))
                      (m.docs t.customers))
                  own
                  (rw w.customers_after (
                    post_sale-Owes scope c i.sale.amount (paid_sum i.tendered) invoice.id
                      i.sale.branch.id balance w.before posted
                      (rw w.customers_before (
                        subst (λ k. Owes scope.company.id k balance (m.docs s.customers)) (sym own)
                          owes)))),
              λ b.
                  subst (λ k. IsBalanced scope.company.id k (m.docs t.customers) (m.docs t.ledger))
                    own
                    (rw (w.customers_after, w.ledger_after)
                      (post_sale-IsBalanced m scope c i.sale.amount (paid_sum i.tendered) invoice.id
                        i.sale.branch.id w.before few i.paid_now.not_above posted
                        (rw (w.customers_before, w.ledger_before)
                          (subst
                            (λ k.
                              IsBalanced scope.company.id k (m.docs s.customers) (m.docs s.ledger))
                            (sym own) b)))),
            )
      ]
