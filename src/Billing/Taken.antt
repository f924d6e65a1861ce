-- ===== src/Billing/Taken.antt =====
-- The stock after the products of an invoice are taken (billing.ts, `checkout`).
use mathlib.Core.Path.{subst}
use cafe_retail_software.Security.{Scope}
use cafe_retail_software.Inventory.Booked.{IsStocked, record_movement_effect}
use cafe_retail_software.Inventory.{of_product, add_stock, record_movement}
use cafe_retail_software.Billing.Asked.{asked}
use cafe_retail_software.Prelude.Int.{
  ℤ, ◌-ℤ◌, pos, ◌+ℤ◌, neg, int_laws, +ℤ_parts, leb_ℤ, pos_part, -ℤ_parts, ◌≤ℤ◌, neg_part,
  eq_of_parts,
}
use cafe_retail_software.Documents.{Inventory, sale}
use cafe_retail_software.Database.{Database}
use cafe_retail_software.Billing.Requested.{Requests, has_stock, take_one, take_stock}
use cafe_retail_software.Prelude.{
  ℕ, List, if◌then◌else◌, find_first, ◌≡◌, ◌==◌, ◌&&◌, some, ◌∷◌, All, modify_first, [], arith,
  Bool-cases, inl, inr, true, Bool, ap, ◌+◌, is_some, sym, ◌∙◌, All-modify_first, ◌≢◌, ◌⊎◌,
}
use cafe_retail_software.Result.{
  ok, ok-injective, ensure->>-eq-ok, >>=-eq-ok, ran, insufficient_stock,
}
use cafe_retail_software.Mongo.{Mongo, find_one-cases}

abbrev sum_ℤ : {A : Type 0} → (A → ℤ) → List A → ℤ
sum_ℤ g [] = pos 0
sum_ℤ g (x ∷ xs) = g x +ℤ sum_ℤ g xs

sum_ℤ-modify_first :
    {A : Type 0} (g : A → ℤ) (p : A → Bool) (f : A → A) (d : ℤ) (xs : List A) (r : A)
    → find_first p xs ≡ some r
    → ((x : A) → p x ≡ true → g (f x) ≡ g x +ℤ d)
    → sum_ℤ g (modify_first p f xs) ≡ sum_ℤ g xs +ℤ d
sum_ℤ-modify_first g p f d [] r e step = ground arith
sum_ℤ-modify_first g p f d (x ∷ xs) r e step = elim (Bool-cases (p x)) [
  | inl t ↦ rw t (rw (step x t) (omega int_laws))
  | inr n ↦ rw n (rw (sum_ℤ-modify_first g p f d xs r (rw n at e) step) (omega int_laws))
]

-- The stock in one row, if it is of a product.
abbrev stock_part : ℕ → ℕ → ℕ → Inventory → ℤ
stock_part company branch product r =
    if of_product company branch product r then r.quantity_scaled else pos 0

-- The quantity of a product over all its rows.
abbrev pub stock_total : ℕ → ℕ → ℕ → List Inventory → ℤ
stock_total company branch product = sum_ℤ (stock_part company branch product)

-- What is asked of a product in one branch of one company is asked nowhere else.
abbrev pub asked_at : ℕ → ℕ → Requests → ℕ → ℕ → ℕ → ℕ
asked_at own_company own_branch requests company branch product =
    if (own_company == company) && (own_branch == branch) then asked product requests else 0

stock_part-add_stock :
    (own_company own_branch own quantity : ℕ) (company branch product : ℕ) (x : Inventory)
    → has_stock own_company own_branch own quantity x ≡ true
    → stock_part company branch product (add_stock (neg (pos quantity)) x)
      ≡ stock_part company branch product x
        +ℤ neg (pos (asked_at own_company own_branch ((own, quantity) ∷ []) company branch product))
unfolding ◌+ℤ◌
stock_part-add_stock own_company own_branch own quantity company branch product x e =
    elim (Bool-cases (of_product company branch product x)) [
      | inl t ↦
          let all : quantity
              ≡ asked_at own_company own_branch ((own, quantity) ∷ []) company branch product =
            ground arith in
          rw t (ap (λ n. x.quantity_scaled +ℤ neg (pos n)) all)
      | inr f ↦
          let nothing : 0
              ≡ asked_at own_company own_branch ((own, quantity) ∷ []) company branch product =
            ground arith in
          rw f (ap (λ n. pos 0 +ℤ neg (pos n)) nothing)
    ]

pub asked_at_own :
    (company branch : ℕ) (requests : Requests) (product : ℕ)
    → asked_at company branch requests company branch product ≡ asked product requests
asked_at_own company branch requests product = ground arith

pub asked_at_other :
    (own_company own_branch : ℕ) (requests : Requests) (company branch product : ℕ)
    → (own_company ≢ company) ⊎ (own_branch ≢ branch)
    → asked_at own_company own_branch requests company branch product ≡ 0
asked_at_other own_company own_branch requests company branch product other = ground arith

pub none_left : (a : ℤ) (n : ℕ) → n ≡ 0 → a ≡ a -ℤ pos n
none_left a n e = omega int_laws

-- What two maps ask together.
asked_at-cons :
    (own_company own_branch own quantity : ℕ) (rest : Requests) (company branch product : ℕ)
    → asked_at own_company own_branch ((own, quantity) ∷ rest) company branch product
      ≡ asked_at own_company own_branch ((own, quantity) ∷ []) company branch product
        + asked_at own_company own_branch rest company branch product
asked_at-cons own_company own_branch own quantity rest company branch product = ground arith

left_twice : (a b c : ℤ) (n k : ℕ) → b ≡ a -ℤ pos n → c ≡ b -ℤ pos k → c ≡ a -ℤ pos (n + k)
left_twice a b c n k h e =
    omega (int_laws, ap pos_part h, ap neg_part h, ap pos_part e, ap neg_part e)

minus_neg : (a : ℤ) (n : ℕ) → a +ℤ neg (pos n) ≡ a -ℤ pos n
minus_neg a n = ground (
  arith,
  +ℤ_parts a (neg (pos n)),
  -ℤ_parts a (pos n),
  eq_of_parts (a +ℤ neg (pos n)) (a -ℤ pos n),
)

-- A row with enough stock is not emptied below nothing.
enough_left : (a : ℤ) (n : ℕ) → leb_ℤ (pos n) a ≡ true → pos 0 ≤ℤ a +ℤ neg (pos n)
enough_left a n h = ground (arith, +ℤ_parts a (neg (pos n)))

module _ (m : Mongo) where
  -- What has been taken of the stock, and nowhere is it negative where it was not before.
  pub record IsTaken (company branch : ℕ) (requests : Requests) (s t : Database m) : Type 0 where
    pub left :
        (company' branch' product : ℕ)
        → stock_total company' branch' product (m.docs t.inventory)
          ≡ stock_total company' branch' product (m.docs s.inventory)
            -ℤ pos (asked_at company branch requests company' branch' product)
    pub stocked : All IsStocked (m.docs s.inventory) → All IsStocked (m.docs t.inventory)

  take_one-IsTaken :
      (scope : Scope) (branch invoice product quantity : ℕ) (s : Database m) {t : Database m}
      → take_one m scope branch invoice product quantity s ≡ ok (tt, t)
      → IsTaken scope.company.id branch ((product, quantity) ∷ []) s t
  unfolding take_one
  take_one-IsTaken scope branch invoice product quantity s h =
      let c = scope.company.id in
      let there = has_stock c branch product quantity in
      let s1 : Database m = record s {
        inventory = m.update_one there (add_stock (neg (pos quantity))) s.inventory;
      } in
      let (found, h1) =
        ensure->>-eq-ok (is_some (m.find_one there s.inventory)) insufficient_stock _ s1 h in
      elim (>>=-eq-ok
        (record_movement m sale c branch product (neg (pos quantity)) (some invoice) scope.user.id)
        _ s1 h1) [
          | ran movement u moved h2 ↦
              let (_, _, _, _, _, kept, _) =
                record_movement_effect m sale c branch product (neg (pos quantity)) (some invoice)
                  scope.user.id s1 moved in
              let written : m.docs u.inventory
                  ≡ modify_first there (add_stock (neg (pos quantity))) (m.docs s.inventory) =
                rw kept (m.docs-update_one there (add_stock (neg (pos quantity))) s.inventory) in
              elim (find_one-cases m there s.inventory) [
                | inl missing ↦ absurd (ground arith)
                | inr (r, one, passes) ↦
                    let first : find_first there (m.docs s.inventory) ≡ some r =
                      sym (m.find_one-eq there s.inventory) ∙ one in
                    subst (λ p. IsTaken c branch ((product, quantity) ∷ []) s p.1) (ok-injective h2)
                      (record {
                        left = λ company' branch' product'. rw written (
                            sum_ℤ-modify_first (stock_part company' branch' product') there
                              (add_stock (neg (pos quantity))) _ (m.docs s.inventory) r first
                              (stock_part-add_stock c branch product quantity company' branch'
                                product')
                            ∙ minus_neg _ _);
                        stocked = λ h. rw written (
                            All-modify_first IsStocked there (add_stock (neg (pos quantity)))
                              (m.docs s.inventory) r first
                              (enough_left r.quantity_scaled quantity (ground arith)) h);
                      })
              ]
        ]

  pub take_stock-IsTaken :
      (scope : Scope) (branch invoice : ℕ) (requests : Requests) (s : Database m) {t : Database m}
      → take_stock m scope branch invoice requests s ≡ ok (tt, t)
      → IsTaken scope.company.id branch requests s t
  unfolding take_stock
  take_stock-IsTaken scope branch invoice [] s h =
      subst (λ p. IsTaken scope.company.id branch [] s p.1) (ok-injective h)
        (record {
          left = λ company' branch' product'. none_left _ _ (ground arith);
          stocked = λ h. h;
        })
  take_stock-IsTaken scope branch invoice ((product, quantity) ∷ rest) s h =
      elim (>>=-eq-ok (take_one m scope branch invoice product quantity) _ s h) [
        | ran _ u taken h1 ↦
            let first = take_one-IsTaken scope branch invoice product quantity s taken in
            let later = take_stock-IsTaken scope branch invoice rest u h1 in
            record {
              left = λ company' branch' product'.
                  rw
                    (asked_at-cons scope.company.id branch product quantity rest company' branch'
                      product')
                    (left_twice _ _ _ _ _ (first.left company' branch' product')
                      (later.left company' branch' product'));
              stocked = λ h. later.stocked (first.stocked h);
            }
      ]
