-- ===== src/Purchasing/Lines.antt =====
-- apps/web/src/server/purchasing.ts: what is computed on the lines of an order, without the database.
use cafe_retail_software.Prelude.Int.{pos, ◌-ℤ◌}
use cafe_retail_software.Result.Pure.{guard}
use cafe_retail_software.Result.{Result, ok, err, validation_error}
use cafe_retail_software.Result.Pure.{◌>>=◌, ◌>>◌, guard}
use cafe_retail_software.Documents.Purchases.{PurchaseItem}
use cafe_retail_software.Money.{Text, scaled, multiply, decimal}
use cafe_retail_software.Documents.{Product}
use cafe_retail_software.Prelude.{
  Option, ℕ, List, or_else, ◌∷◌, Bool, ◌==◌, [], false, if◌then◌else◌, some, ◌+◌, none, ltb, not,
  true, leb, includes, find_first, modify_first,
}

-- One entry of `body.items` of a draft. A missing `unit_cost` is `none`.
pub record LineInput : Type 0 where
  pub product_id : ℕ
  pub quantity_ordered : Text
  pub unit_cost : Option Text

-- One entry of `body.items` of a receipt: `raw_id` stands for the JSON value `item_id` as a `Set` compares
-- it, and `item_id` for its `Number`.
pub record ReceiptInput : Type 0 where
  pub raw_id : ℕ
  pub item_id : ℕ
  pub quantity_received : Text

-- "0.00"
abbrev pub no_quantity : Text
no_quantity = b'0' ∷ b'.' ∷ b'0' ∷ b'0' ∷ []

-- A missing cost is no decimal.
abbrev pub cost_text : LineInput → Product → Text
cost_text input product = or_else input.unit_cost (or_else product.unit_cost [])

-- A line of a draft, with its amount in hundredths.
unfoldable pub priced_line : ℕ → Product → LineInput → Result (ℕ × PurchaseItem)
priced_line id product input = do
  quantity ← scaled input.quantity_ordered
  cost ← scaled (cost_text input product)
  guard (ltb 0 quantity) validation_error
  line ← multiply cost quantity
  quantity_text ← decimal (pos quantity)
  cost_printed ← decimal (pos cost)
  line_text ← decimal (pos line)
  ok (
    line,
    record {
      id = id;
      product_id = product.id;
      quantity_ordered = quantity_text;
      quantity_received = no_quantity;
      remaining_quantity = quantity_text;
      unit_cost = cost_printed;
      line_total = line_text;
      received_now = none;
    },
  )

-- The sum of a quantity over the lines: `items.reduce((n, i) => n + scaled(…), 0)`.
unfoldable pub sum_scaled : (PurchaseItem → Text) → List PurchaseItem → Result ℕ
sum_scaled f [] = ok 0
sum_scaled f (item ∷ items) = do n ← scaled (f item); rest ← sum_scaled f items; ok (n + rest)

-- What arrived of a line is moved from what remains to what was received.
unfoldable pub receive_item : Text → PurchaseItem → Result PurchaseItem
receive_item text item = do
  quantity ← scaled text
  guard (ltb 0 quantity) validation_error
  remaining ← scaled item.remaining_quantity
  guard (leb quantity remaining) validation_error
  before ← scaled item.quantity_received
  received_text ← decimal (pos (before + quantity))
  remaining' ← scaled item.remaining_quantity
  remaining_text ← decimal (pos remaining' -ℤ pos quantity)
  ok (record item {
    received_now = some quantity;
    quantity_received = received_text;
    remaining_quantity = remaining_text;
  })

abbrev pub has_id : ℕ → PurchaseItem → Bool
has_id id i = i.id == id

abbrev pub found_item : Option PurchaseItem → Result PurchaseItem
found_item none = err validation_error
found_item (some item) = ok item

-- The entries of a receipt, one after the other, with the raw identifiers seen so far.
unfoldable pub receive_lines :
    List ℕ → List PurchaseItem → List ReceiptInput → Result (List PurchaseItem)
unfolding receive_item
receive_lines seen items [] = ok items
receive_lines seen items (input ∷ inputs) = do
  guard (not (includes input.raw_id seen)) validation_error
  item ← found_item (find_first (has_id input.item_id) items)
  next ← receive_item input.quantity_received item
  receive_lines (input.raw_id ∷ seen) (modify_first (has_id input.item_id) (λ i. next) items) inputs

-- `items.some((i) => scaled(i.remaining_quantity) > 0)`
unfoldable pub some_remaining : List PurchaseItem → Result Bool
some_remaining [] = ok false
some_remaining (item ∷ items) = do
  n ← scaled item.remaining_quantity
  let rest = some_remaining items
  if ltb 0 n then ok true else rest
