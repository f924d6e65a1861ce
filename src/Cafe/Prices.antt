-- ===== src/Cafe/Prices.antt =====
-- The lines of a new cafe order (cafe.ts, `createOrder`).
use cafe_retail_software.Money.Bounds.{value_ok, sum_eq, suc_eq}
use mathlib.Core.Path.{subst}
use cafe_retail_software.Prelude.Int.{pos}
use cafe_retail_software.Database.{Database, required_row-holds}
use cafe_retail_software.Result.{
  ok, ok-injective, ensure->>-eq-ok, validation_error, lift->>=-eq-ok, reads, >>=-eq-ok, ran,
}
use cafe_retail_software.Money.{value, decimal, scaled}
use cafe_retail_software.Prelude.{
  ℕ, ◌≤◌, ◌≡◌, List, ◌*◌, Option-cases, arith, All, sum_of, inl, length, inr, ◌∷◌, ◌==◌, leb, ◌+◌,
  ◌∙◌, [], refl,
}
use cafe_retail_software.Cafe.Ordering.{
  ordered_item, order_items, ordered_quantity, OrderLine, on_menu,
}
use cafe_retail_software.Documents.Cafe.{OrderItem, placed, MenuItem}
use cafe_retail_software.Mongo.{Mongo}

-- The price of a line's quantity.
abbrev pub item_amount : OrderItem → ℕ
item_amount i = value i.unit_price * i.quantity

-- A line of a new order: a quantity from 1 to 20, and the printed amount.
pub record IsPriced (i : OrderItem) : Type 0 where
  pub some_quantity : 1 ≤ i.quantity
  pub few : i.quantity ≤ 20
  pub is_new : i.status ≡ placed
  pub amount_text : decimal (pos (item_amount i)) ≡ ok i.line_total

ordered_quantity_bounds :
    (input : OrderLine) {n : ℕ} → ordered_quantity input ≡ ok n → (1 ≤ n) × (n ≤ 20)
unfolding ordered_quantity
ordered_quantity_bounds input h = elim (Option-cases input.quantity) [
  | inl missing ↦ ground arith
  | inr (n, given) ↦ ground arith
]

module _ (m : Mongo) where
  ordered_item_keeps :
      (company branch : ℕ) (input : OrderLine) (s : Database m) {item : MenuItem} {t : Database m}
      → ordered_item m company branch input s ≡ ok (item, t)
      → t ≡ s
  unfolding ordered_item
  ordered_item_keeps company branch input s h =
      (required_row-holds m (on_menu company branch input.menu_item_public_id) (λ s. s.menu_items) s
        h).2

  pub order_items-IsPriced :
      (company branch next : ℕ) (inputs : List OrderLine) (s : Database m)
      {lines : ℕ × List OrderItem} {t : Database m}
      → order_items m company branch next inputs s ≡ ok (lines, t)
      → All IsPriced lines.1
        × (sum_of item_amount lines.1 ≡ lines.0)
        × (length lines.1 ≡ length inputs)
        × (t ≡ s)
  unfolding order_items
  order_items-IsPriced company branch next [] s h =
      subst
        (λ p.
          All IsPriced p.0.1 × (sum_of item_amount p.0.1 ≡ p.0.0) × (length p.0.1 ≡ 0) × (p.1 ≡ s))
        (ok-injective h) (tt, refl, refl, refl)
  order_items-IsPriced company branch next (input ∷ inputs) s h =
      let (_, h1) = ensure->>-eq-ok (input.other_keys == 0) validation_error _ s h in
      elim (lift->>=-eq-ok (ordered_quantity input) _ s h1) [
        | reads quantity given h2 ↦
            let (_, h3) = ensure->>-eq-ok (leb (length input.notes) 300) validation_error _ s h2 in
            elim (>>=-eq-ok (ordered_item m company branch input) _ s h3) [
              | ran item u found h4 ↦
                  let same = ordered_item_keeps company branch input s found in
                  elim (lift->>=-eq-ok (scaled item.selling_price) _ u h4) [
                    | reads price read h5 ↦
                        elim (lift->>=-eq-ok (decimal (pos (price * quantity))) _ u h5) [
                          | reads text printed h6 ↦
                              elim (>>=-eq-ok (order_items m company branch (next + 1) inputs) _ u
                                h6) [
                                  | ran rest v others h7 ↦
                                      let (priced, total, same_length, same') =
                                        order_items-IsPriced company branch (next + 1) inputs u
                                          others in
                                      let (low, high) = ordered_quantity_bounds input given in
                                      let amount : value item.selling_price ≡ price =
                                        value_ok item.selling_price read in
                                      subst
                                        (λ p.
                                          All IsPriced p.0.1
                                          × (sum_of item_amount p.0.1 ≡ p.0.0)
                                          × (length p.0.1 ≡ length (input ∷ inputs))
                                          × (p.1 ≡ s))
                                        (ok-injective h7)
                                        (
                                          (
                                            record {
                                              some_quantity = low;
                                              few = high;
                                              is_new = refl;
                                              amount_text = rw amount printed;
                                            },
                                            priced,
                                          ),
                                          sum_eq (rw amount refl) total,
                                          suc_eq same_length,
                                          same' ∙ same,
                                        )
                                ]
                        ]
                  ]
            ]
      ]
