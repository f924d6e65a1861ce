-- ===== src/Billing/Accounts.antt =====
-- A payment on account keeps the customer's balance right (ledger.ts).
use mathlib.Core.Path.{subst}
use cafe_retail_software.Money.Bounds.{scaled_bound}
use cafe_retail_software.Billing.Kept.{collecting_mode_keeps}
use cafe_retail_software.Security.Isolation.{authorized_branch_scope}
use cafe_retail_software.Ledger.{usable_customer, Posting, post_ledger}
use cafe_retail_software.Prelude.Int.{pos}
use cafe_retail_software.Money.{scaled, decimal}
use cafe_retail_software.Ledger.Balance.{IsBalanced, post_ledger-IsBalanced, post_ledger-IsPosted}
use cafe_retail_software.Result.{
  reads, ran, >>=-eq-ok, ok, ensure->>-eq-ok, forbidden, lift->>=-eq-ok, validation_error,
  ok-injective,
}
use cafe_retail_software.Documents.{CustomerPayment, LedgerEntry, payment_entry}
use cafe_retail_software.Prelude.{ℕ, ◌≡◌, arith, ◌≤◌, or_else, given_or, leb, none, ◌∙◌, ap}
use cafe_retail_software.Security.{authorized_branch, Scope, sellers, authorized_branch}
use cafe_retail_software.Database.{
  Database, required_row->>=-eq-ok, found_row, customer_payment_counter, count_up,
}
use cafe_retail_software.Billing.Collect.{receive_payment, AccountPayment, collecting_mode}
use cafe_retail_software.Mongo.{Mongo}

module _ (m : Mongo) where
  -- A payment on account that returns is positive and posted as a credit of its amount: where the customer's
  -- stored balance was the opening balance plus the debits less the credits of the customer's rows, it still is.
  pub receive_payment-IsBalanced :
      (scope : Scope) (today id : ℕ) (body : AccountPayment) (s : Database m)
      {result : CustomerPayment × LedgerEntry} {t : Database m}
      → receive_payment m scope today id body s ≡ ok (result, t)
      → IsBalanced scope.company.id id (m.docs s.customers) (m.docs s.ledger)
      → (amount : ℕ) × (scaled body.payment.amount ≡ ok amount)
        × (1 ≤ amount)
        × (decimal (pos amount) ≡ ok result.1.credit)
        × IsBalanced scope.company.id id (m.docs t.customers) (m.docs t.ledger)
  unfolding receive_payment
  receive_payment-IsBalanced scope today id body s {result = result} {t = t} h b =
      let (_, h1) = ensure->>-eq-ok (sellers scope.user.role) forbidden _ s h in
      elim (required_row->>=-eq-ok m (usable_customer scope id) (λ s. s.customers) _ s h1) [
        | found_row customer passes one h2 ↦
            let branch_id : ℕ = or_else (given_or body.branch_id customer.branch_id) 0 in
            elim (>>=-eq-ok (authorized_branch m scope branch_id) _ s h2) [
              | ran branch s1 authorized h3 ↦
                  let (_, _, _, _, same1) =
                    authorized_branch_scope m scope branch_id s authorized in
                  elim (lift->>=-eq-ok (scaled body.payment.amount) _ s1 h3) [
                    | reads amount read h4 ↦
                        let (positive, h5) =
                          ensure->>-eq-ok (leb 1 amount) validation_error _ s1 h4 in
                        elim (>>=-eq-ok (collecting_mode m scope body.payment) _ s1 h5) [
                          | ran mode s2 moded h6 ↦
                              let (same2, _) =
                                collecting_mode_keeps m scope body.payment s1 moded in
                              elim (lift->>=-eq-ok (decimal (pos amount)) _ s2 h6) [
                                | reads text printed h7 ↦
                                    let payment_id : ℕ =
                                      count_up customer_payment_counter s2.counters
                                        customer_payment_counter in
                                    let payment : CustomerPayment = record {
                                      id = payment_id;
                                      company_id = scope.company.id;
                                      branch_id = branch.id;
                                      customer_id = customer.id;
                                      mode_type = mode.mode_type;
                                      amount = text;
                                      business_date = today;
                                      ledger_entry_id = none;
                                    } in
                                    let posting : Posting = record {
                                      debit = 0;
                                      credit = amount;
                                      entry_type = payment_entry;
                                      reference_id = payment_id;
                                      branch_id = branch.id;
                                    } in
                                    let s4 : Database m = record s2 {
                                      customer_payments = m.insert_one payment s2.customer_payments;
                                      counters = count_up customer_payment_counter s2.counters;
                                    } in
                                    elim (>>=-eq-ok (post_ledger m scope customer.id posting) _ s4
                                      h7) [
                                        | ran entry s5 posted h9 ↦
                                            let own : customer.id ≡ id = ground arith in
                                            let customers4 : s2.customers ≡ s.customers =
                                              ap (λ u. u.customers) (same2 ∙ same1) in
                                            let ledger4 : s2.ledger ≡ s.ledger =
                                              ap (λ u. u.ledger) (same2 ∙ same1) in
                                            let before : IsBalanced scope.company.id customer.id
                                                (m.docs s4.customers) (m.docs s4.ledger) =
                                              rw (own, customers4, ledger4) b in
                                            let after =
                                              post_ledger-IsBalanced m scope customer.id posting s4
                                                (omega arith)
                                                (scaled_bound body.payment.amount read) posted
                                                before in
                                            subst
                                              (λ r.
                                                (amount : ℕ) × (scaled body.payment.amount
                                                  ≡ ok amount)
                                                × (1 ≤ amount)
                                                × (decimal (pos amount) ≡ ok r.0.1.credit)
                                                × IsBalanced scope.company.id id
                                                    (m.docs r.1.customers) (m.docs r.1.ledger))
                                              (ok-injective h9)
                                              (
                                                amount,
                                                read,
                                                ground arith,
                                                (post_ledger-IsPosted m scope customer.id posting s4
                                                    posted).credit_printed,
                                                rw own at after,
                                              )
                                      ]
                              ]
                        ]
                  ]
            ]
      ]
