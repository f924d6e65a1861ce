-- ===== src/Billing/Paid.antt =====
-- What the payments of a checkout are, and what may stay unpaid (billing.ts, `checkout`).
use cafe_retail_software.Money.Bounds.{value_decimal, scaled_bound}
use mathlib.Core.Path.{subst}
use cafe_retail_software.Database.{Database, invoice_payment_counter, count_up}
use cafe_retail_software.Ledger.{outstanding, zero_text}
use cafe_retail_software.Billing.{PaymentInput, active_mode, is_credit}
use cafe_retail_software.Money.{scaled, trimmed_length, decimal}
use cafe_retail_software.Prelude.Int.{ℤ, ◌+ℤ◌, pos, ◌≤ℤ◌}
use cafe_retail_software.Documents.{Customer}
use cafe_retail_software.Security.{Scope}
use cafe_retail_software.Prelude.{
  ℕ, List, ◌≤◌, Option, Bool, ◌≡◌, All, ◌<◌, some, or_else, arith, ◌-◌, leb, lt→ltb, ◌∷◌, [],
  is_some, none, refl, not, ◌||◌,
}
use cafe_retail_software.Billing.Tender.{
  within_credit, may_owe, tender, Tendered, tender_one, paid_sum, raw_payments, enough_payments,
  is_tender,
}
use cafe_retail_software.Billing.Checkout.{pay_sale}
use cafe_retail_software.Billing.Sale.{Sale, CheckoutBody}
use cafe_retail_software.Result.{
  ok, ok-injective, lift->>=-eq-ok, reads, >>=-eq-ok, ran, ensure->>-eq-ok, validation_error,
  required,
}
use cafe_retail_software.Result.Pure
use cafe_retail_software.Mongo.{Mongo}

-- A payment is positive, and its text reads as its amount.
pub record IsTendered (t : Tendered) : Type 0 where
  pub some_amount : 1 ≤ t.amount
  pub reads_back : scaled t.text ≡ ok t.amount

-- A customer who may owe so much more, within the credit limit.
pub record MayOwe (due : ℕ) (c : Customer) : Type 0 where
  pub owes : ℤ
  pub limit : ℕ
  pub reads_owed : outstanding c ≡ ok owes
  pub reads_limit : scaled (or_else c.credit_limit zero_text) ≡ ok limit
  pub within : owes +ℤ pos due ≤ℤ pos limit

within_credit-MayOwe :
    (customer : Option Customer) (due : ℕ)
    → within_credit customer due ≡ ok tt
    → (c : Customer) × (customer ≡ some c) × MayOwe due c
unfolding within_credit
within_credit-MayOwe none due h = absurd (ground arith)
within_credit-MayOwe (some c) due h = elim (Pure.>>=-eq-ok (outstanding c) _ h) [
  | Pure.ran owes owed h1 ↦ elim (Pure.>>=-eq-ok (scaled (or_else c.credit_limit zero_text)) _ h1) [
    | Pure.ran limit limited h2 ↦ (
      c,
      refl,
      record {
        owes = owes;
        limit = limit;
        reads_owed = owed;
        reads_limit = limited;
        within = ground arith;
      },
    )
  ]
]

-- The payments of a sale.
pub record IsPaid (sale : Sale) (tendered : List Tendered) : Type 0 where
  pub each : All IsTendered tendered
  pub not_above : paid_sum tendered ≤ sale.amount
  pub rest :
      paid_sum tendered < sale.amount
      → (c : Customer) × (sale.customer ≡ some c) × MayOwe (sale.amount - paid_sum tendered) c

may_owe-eq-ok :
    (customer : Option Customer) (amount paid_now : ℕ)
    → may_owe customer amount paid_now ≡ ok tt
    → (paid_now ≤ amount)
      × (paid_now < amount → (c : Customer) × (customer ≡ some c) × MayOwe (amount - paid_now) c)
unfolding may_owe
may_owe-eq-ok customer amount paid_now h =
    elim (Pure.>>=-eq-ok (Pure.guard (leb paid_now amount) validation_error) _ h) [
      | Pure.ran _ fits h1 ↦ (
        ground arith,
        λ short.
            within_credit-MayOwe customer (amount - paid_now)
              (rw (lt→ltb paid_now amount short) at h1),
      )
    ]

module _ (m : Mongo) where
  tender_one-IsTendered :
      (scope : Scope) (has_customer : Bool) (input : PaymentInput) (s : Database m) {one : Tendered}
      {t : Database m}
      → tender_one m scope has_customer input s ≡ ok (one, t)
      → IsTendered one
  unfolding tender_one
  tender_one-IsTendered scope has_customer input s h =
      elim (>>=-eq-ok
        (required (m.find_one (active_mode scope.company.id input.payment_mode_id) s.payment_modes)
          validation_error)
        _ s h) [
          | ran mode s1 found h1 ↦
              let (_, h2) = ensure->>-eq-ok (is_tender mode.mode_type) validation_error _ s1 h1 in
              elim (lift->>=-eq-ok (scaled input.amount) _ s1 h2) [
                | reads value read h3 ↦
                    let (positive, h4) = ensure->>-eq-ok (leb 1 value) validation_error _ s1 h3 in
                    let (_, h5) =
                      ensure->>-eq-ok
                        (not mode.requires_reference
                          || leb 1 (trimmed_length input.reference_number))
                        validation_error _ s1 h4 in
                    let (_, h6) =
                      ensure->>-eq-ok (not (is_credit mode.mode_type) || has_customer)
                        validation_error _ s1 h5 in
                    let s2 : Database m = record s1 {
                      counters = count_up invoice_payment_counter s1.counters;
                    } in
                    elim (lift->>=-eq-ok (decimal (pos value)) _ s2 h6) [
                      | reads text printed h7 ↦
                          subst (λ p. IsTendered p.0) (ok-injective h7)
                            (record {
                              some_amount = ground arith;
                              reads_back =
                                  value_decimal value (scaled_bound input.amount read) printed;
                            })
                    ]
              ]
        ]

  tender-IsTendered :
      (scope : Scope) (has_customer : Bool) (inputs : List PaymentInput) (s : Database m)
      {tendered : List Tendered} {t : Database m}
      → tender m scope has_customer inputs s ≡ ok (tendered, t)
      → All IsTendered tendered
  unfolding tender
  tender-IsTendered scope has_customer [] s h = subst (λ p. All IsTendered p.0) (ok-injective h) tt
  tender-IsTendered scope has_customer (input ∷ inputs) s h =
      elim (>>=-eq-ok (tender_one m scope has_customer input) _ s h) [
        | ran one u first h1 ↦ elim (>>=-eq-ok (tender m scope has_customer inputs) _ u h1) [
          | ran others v later h2 ↦
              subst (λ p. All IsTendered p.0) (ok-injective h2)
                (
                  tender_one-IsTendered scope has_customer input s first,
                  tender-IsTendered scope has_customer inputs u later,
                )
        ]
      ]

  pub pay_sale-IsPaid :
      (scope : Scope) (at_cafe : Bool) (body : CheckoutBody) (sale : Sale) (s : Database m)
      {tendered : List Tendered} {t : Database m}
      → pay_sale m scope at_cafe body sale s ≡ ok (tendered, t)
      → IsPaid sale tendered
  unfolding pay_sale
  pay_sale-IsPaid scope at_cafe body sale s h =
      elim (>>=-eq-ok
        (required
          (raw_payments at_cafe body.payments body.payment_mode_id body.reference_number
            sale.quoted.grand_total)
          validation_error)
        _ s h) [
          | ran inputs s1 given h1 ↦
              let (enough, h2) =
                ensure->>-eq-ok (enough_payments (is_some sale.customer) inputs) validation_error _
                  s1 h1 in
              elim (>>=-eq-ok (tender m scope (is_some sale.customer) inputs) _ s1 h2) [
                | ran ts s2 paid_now h3 ↦
                    elim (lift->>=-eq-ok (may_owe sale.customer sale.amount (paid_sum ts)) _ s2
                      h3) [
                        | reads done agreed h4 ↦
                            let (below, rest) =
                              may_owe-eq-ok sale.customer sale.amount (paid_sum ts) agreed in
                            subst (λ p. IsPaid sale p.0) (ok-injective h4)
                              (record {
                                each =
                                    tender-IsTendered scope (is_some sale.customer) inputs s1
                                      paid_now;
                                not_above = below;
                                rest = rest;
                              })
                      ]
              ]
        ]
