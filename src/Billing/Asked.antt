-- ===== src/Billing/Asked.antt =====
-- The map of the stock that an invoice takes says, for each product, what its lines say together
-- (billing.ts, `checkout`).
use cafe_retail_software.Prelude.{none, some, ◌&&◌}
use cafe_retail_software.Money.{scaled, value}
use mathlib.Core.Path.{subst}
use cafe_retail_software.Documents.Invoices.{InvoiceItem}
use cafe_retail_software.Prelude.{
  ℕ, ◌≡◌, sum_of, Distinct, List, ◌≢◌, arith, All, if◌then◌else◌, Option-cases, ◌+◌, [], ◌==◌, inl,
  inr, ◌∷◌, Bool-cases,
}
use cafe_retail_software.Result.Pure.{>>=-eq-ok, ran}
use cafe_retail_software.Result.{ok, Result-cases}
use cafe_retail_software.Billing.Requested.{
  Requests, requested, request_line, requested_from, add_request,
}

-- What a map asks of a product.
abbrev pub asked : ℕ → Requests → ℕ
asked product = sum_of (λ r. if r.0 == product then r.1 else 0)

-- What a line asks of a product: its quantity, where stock of it is kept.
abbrev pub line_part : ℕ → InvoiceItem → ℕ
line_part product item = elim item.product_id [
  | none ↦ 0
  | some own ↦ if own == product && item.tracks_stock then value item.quantity else 0
]

asked-add_request :
    (product own quantity : ℕ) (requests : Requests)
    → asked product (add_request own quantity requests)
      ≡ asked product requests + (if own == product then quantity else 0)
unfolding add_request
asked-add_request product own quantity [] = ground arith
asked-add_request product own quantity ((k, n) ∷ rest) =
    ground (arith, asked-add_request product own quantity rest)

far-add_request :
    (key own quantity : ℕ) (requests : Requests)
    → own ≢ key
    → All (λ r. r.0 ≢ key) requests
    → All (λ r. r.0 ≢ key) (add_request own quantity requests)
unfolding add_request
far-add_request key own quantity [] far h = (far, tt)
far-add_request key own quantity ((k, n) ∷ rest) far (hk, h) = elim (Bool-cases (k == own)) [
  | inl t ↦ rw t (hk, h)
  | inr f ↦ rw f (hk, far-add_request key own quantity rest far h)
]

add_request-Distinct :
    (own quantity : ℕ) (requests : Requests)
    → Distinct (λ r. r.0) requests
    → Distinct (λ r. r.0) (add_request own quantity requests)
unfolding add_request
add_request-Distinct own quantity [] d = (tt, tt)
add_request-Distinct own quantity ((k, n) ∷ rest) (far, d) = elim (Bool-cases (k == own)) [
  | inl t ↦ rw t (far, d)
  | inr f ↦ rw f (
    far-add_request k own quantity rest (ground arith) far,
    add_request-Distinct own quantity rest d,
  )
]

-- The map is of distinct keys, and asks what some lines ask on top of what another asks.
abbrev Asks : Requests → Requests → (ℕ → ℕ) → Type 0
Asks before after part =
    (Distinct (λ r. r.0) before → Distinct (λ r. r.0) after)
    × ((product : ℕ) → asked product after ≡ asked product before + part product)

request_line-Asks :
    (item : InvoiceItem) (requests : Requests) {next : Requests}
    → request_line item requests ≡ ok next
    → Asks requests next (λ product. line_part product item)
unfolding request_line
request_line-Asks item requests {next = next} h = elim (Option-cases item.product_id) [
  | inl none_there ↦
      let same : requests ≡ next = ground arith in
      subst (λ r. Asks requests r (λ product. line_part product item)) same
        (λ d. d, λ product. rw none_there (omega arith))
  | inr (own, there) ↦ elim (Bool-cases item.tracks_stock) [
    | inr untracked ↦
        let same : requests ≡ next = ground arith in
        subst (λ r. Asks requests r (λ product. line_part product item)) same
          (λ d. d, λ product. rw there (ground arith))
    | inl tracked ↦ elim (Result-cases (scaled item.quantity)) [
      | inl (e, refused) ↦ absurd (ground arith)
      | inr (n, read) ↦
          let same : add_request own n requests ≡ next = ground arith in
          subst (λ r. Asks requests r (λ product. line_part product item)) same
            (
              add_request-Distinct own n requests,
              λ product. rw there (ground (arith, asked-add_request product own n requests)),
            )
    ]
  ]
]

requested_from-Asks :
    (requests : Requests) (items : List InvoiceItem) {all : Requests}
    → requested_from requests items ≡ ok all
    → Asks requests all (λ product. sum_of (line_part product) items)
unfolding requested_from
requested_from-Asks requests [] {all = all} h =
    let same : requests ≡ all = ground arith in
    subst (λ r. Asks requests r (λ product. 0)) same (λ d. d, λ product. omega arith)
requested_from-Asks requests (item ∷ items) h = elim (>>=-eq-ok (request_line item requests) _ h) [
  | ran next lined h1 ↦
      let (first, part) = request_line-Asks item requests lined in
      let (rest, parts) = requested_from-Asks next items h1 in
      (λ d. rest (first d), λ product. omega (arith, part product, parts product))
]

-- The map of an invoice's lines has each product once, with the sum of the quantities of its lines of which
-- stock is kept.
pub requested-sum_of :
    (items : List InvoiceItem) {requests : Requests}
    → requested items ≡ ok requests
    → Distinct (λ r. r.0) requests
      × ((product : ℕ) → asked product requests ≡ sum_of (line_part product) items)
unfolding requested
requested-sum_of items h =
    let (distinct, same) = requested_from-Asks [] items h in
    (distinct tt, λ product. omega (arith, same product))
