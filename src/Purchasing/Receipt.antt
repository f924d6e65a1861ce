-- ===== src/Purchasing/Receipt.antt =====
-- What a receipt does to the lines of an order (purchasing.ts): nothing is lost between the quantities.
use mathlib.Core.Path.{subst}
use cafe_retail_software.Money.Bounds.{amount_limit, scaled_bound, value_decimal, value_ok, sum_eq}
use cafe_retail_software.Result.{ok, validation_error, ok-injective}
use cafe_retail_software.Result.Pure.{>>=-eq-ok, ran, guard}
use cafe_retail_software.Money.{value, Text, scaled, decimal}
use cafe_retail_software.Documents.Purchases.{PurchaseItem}
use cafe_retail_software.Purchasing.Lines.{
  receive_item, receive_lines, ReceiptInput, found_item, has_id,
}
use cafe_retail_software.Prelude.{
  ℕ, ◌≤◌, ◌≡◌, ◌+◌, ◌-◌, arith, ◌<◌, some, ltb, true, leb, refl, ◌∙◌, sym, Option, List, sum_of,
  none, All, ◌∷◌, not, includes, find_first, find_first-All, modify_first, All-modify_first,
  sum_of-modify_first, [],
}
use cafe_retail_software.Prelude.Int.{◌-ℤ◌, pos, sub_pos}

-- What was received of a line and what remains make up what was ordered.
pub record IsConserved (item : PurchaseItem) : Type 0 where
  pub amount : ℕ
  pub arrived : ℕ
  pub left : ℕ
  pub reads_ordered : scaled item.quantity_ordered ≡ ok amount
  pub reads_received : scaled item.quantity_received ≡ ok arrived
  pub reads_remaining : scaled item.remaining_quantity ≡ ok left
  pub sums_up : arrived + left ≡ amount

-- A line after the receipt of a quantity.
record IsReceived (quantity : ℕ) (item next : PurchaseItem) : Type 0 where
  pub conserved : IsConserved next
  pub more : value next.quantity_received ≡ value item.quantity_received + quantity
  pub some_quantity : 0 < quantity
  pub noted : next.received_now ≡ some quantity
  pub same_id : next.id ≡ item.id
  pub same_product : next.product_id ≡ item.product_id

-- The steps of a receipt that returns.
receive_item_steps :
    (text : Text) (item : PurchaseItem) {next : PurchaseItem}
    → receive_item text item ≡ ok next
    → (quantity : ℕ) × (remaining : ℕ) × (before : ℕ) × (received_text : Text)
      × (remaining_text : Text) × (scaled text ≡ ok quantity)
      × (ltb 0 quantity ≡ true)
      × (scaled item.remaining_quantity ≡ ok remaining)
      × (leb quantity remaining ≡ true)
      × (scaled item.quantity_received ≡ ok before)
      × (decimal (pos (before + quantity)) ≡ ok received_text)
      × (decimal (pos remaining -ℤ pos quantity) ≡ ok remaining_text)
      × (next ≡ record item {
        received_now = some quantity;
        quantity_received = received_text;
        remaining_quantity = remaining_text;
      })
unfolding receive_item
receive_item_steps text item h = elim (>>=-eq-ok (scaled text) _ h) [
  | ran quantity read h1 ↦ elim (>>=-eq-ok (guard (ltb 0 quantity) validation_error) _ h1) [
    | ran _ some_amount h2 ↦ elim (>>=-eq-ok (scaled item.remaining_quantity) _ h2) [
      | ran remaining read_left h3 ↦
          elim (>>=-eq-ok (guard (leb quantity remaining) validation_error) _ h3) [
            | ran _ enough h4 ↦ elim (>>=-eq-ok (scaled item.quantity_received) _ h4) [
              | ran before read_before h5 ↦
                  elim (>>=-eq-ok (decimal (pos (before + quantity))) _ h5) [
                    | ran received_text printed h6 ↦
                        elim (>>=-eq-ok (scaled item.remaining_quantity) _ h6) [
                          | ran remaining' read_again h7 ↦
                              elim (>>=-eq-ok (decimal (pos remaining' -ℤ pos quantity)) _ h7) [
                                | ran remaining_text printed_left h8 ↦
                                    let same : remaining' ≡ remaining = ground arith in
                                    (
                                      quantity,
                                      remaining,
                                      before,
                                      received_text,
                                      remaining_text,
                                      read,
                                      ground arith,
                                      read_left,
                                      ground arith,
                                      read_before,
                                      printed,
                                      rw same at printed_left,
                                      ground arith,
                                    )
                              ]
                        ]
                  ]
            ]
          ]
    ]
  ]
]

receive_item-IsReceived :
    (text : Text) (item : PurchaseItem) {next : PurchaseItem}
    → receive_item text item ≡ ok next
    → IsConserved item
    → IsReceived (value text) item next
receive_item-IsReceived text item h c =
    let (
      quantity, remaining, before, received_text, remaining_text, read, positive, read_left, enough,
      read_before, printed, printed_left, is_next,
    ) =
      receive_item_steps text item h in
    let few : c.amount < amount_limit = scaled_bound item.quantity_ordered c.reads_ordered in
    let same_left : c.left ≡ remaining = ground (arith, c.reads_remaining) in
    let same_before : c.arrived ≡ before = ground (arith, c.reads_received) in
    let fits : quantity ≤ remaining = ground arith in
    let total : before + remaining ≡ c.amount = ground (arith, c.sums_up) in
    let back = value_decimal (before + quantity) (omega arith) printed in
    let back_left =
      value_decimal (remaining - quantity) (omega arith)
        (rw (sub_pos remaining quantity fits) at printed_left) in
    rw is_next (record {
      conserved = record {
        amount = c.amount;
        arrived = before + quantity;
        left = remaining - quantity;
        reads_ordered = c.reads_ordered;
        reads_received = back;
        reads_remaining = back_left;
        sums_up = omega arith;
      };
      more =
          value_ok received_text back
          ∙ sym (sum_eq (value_ok item.quantity_received read_before) (value_ok text read));
      some_quantity = ground arith;
      noted = ground arith;
      same_id = refl;
      same_product = refl;
    })

found_item-eq-ok :
    (o : Option PurchaseItem) {item : PurchaseItem} → found_item o ≡ ok item → o ≡ some item
found_item-eq-ok none h = ground arith
found_item-eq-ok (some i) h = ground arith

-- How much of the lines has arrived, and how much the entries of a receipt report.
abbrev pub arrived_of : List PurchaseItem → ℕ
arrived_of = sum_of (λ i. value i.quantity_received)

abbrev pub reported : List ReceiptInput → ℕ
reported = sum_of (λ i. value i.quantity_received)

grown_by :
    (after middle before old new amount others : ℕ)
    → after ≡ middle + others
    → middle + old ≡ before + new
    → new ≡ old + amount
    → after ≡ before + (amount + others)
grown_by after middle before old new amount others h k l = omega arith

-- A receipt that is accepted keeps on each line that what arrived and what remains make up what was ordered
-- (so no more arrives than was ordered), and the lines' received quantities together grow by exactly what the
-- entries report.
pub receive_lines-IsConserved :
    (seen : List ℕ) (items : List PurchaseItem) (inputs : List ReceiptInput)
    {items' : List PurchaseItem}
    → receive_lines seen items inputs ≡ ok items'
    → All IsConserved items
    → All IsConserved items' × (arrived_of items' ≡ arrived_of items + reported inputs)
unfolding receive_lines
receive_lines-IsConserved seen items [] h c =
    subst (λ xs. All IsConserved xs × (arrived_of xs ≡ arrived_of items + 0)) (ok-injective h)
      (c, omega arith)
receive_lines-IsConserved seen items (input ∷ inputs) h c =
    elim (>>=-eq-ok (guard (not (includes input.raw_id seen)) validation_error) _ h) [
      | ran _ fresh h1 ↦
          elim (>>=-eq-ok (found_item (find_first (has_id input.item_id) items)) _ h1) [
            | ran item is_there h2 ↦
                elim (>>=-eq-ok (receive_item input.quantity_received item) _ h2) [
                  | ran next received_one h3 ↦
                      let p = has_id input.item_id in
                      let found : find_first p items ≡ some item = found_item-eq-ok _ is_there in
                      let step =
                        receive_item-IsReceived input.quantity_received item received_one
                          (find_first-All IsConserved p items c found) in
                      let (rest, grown) =
                        receive_lines-IsConserved (input.raw_id ∷ seen)
                          (modify_first p (λ i. next) items) inputs h3
                          (All-modify_first IsConserved p (λ i. next) items item found
                            step.conserved c) in
                      let moved =
                        sum_of-modify_first (λ i. value i.quantity_received) p (λ i. next) items
                          item found in
                      (rest, grown_by _ _ _ _ _ _ _ grown moved step.more)
                ]
          ]
    ]
