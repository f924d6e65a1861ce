-- ===== src/Billing/Tax.antt =====
-- apps/web/src/server/billing.ts, `quote`: the price and the taxes of one line of a cart.
use cafe_retail_software.Prelude.Int.{pos, ◌-ℤ◌}
use cafe_retail_software.Ledger.{zero_text}
use cafe_retail_software.Documents.Invoices.{InvoiceItem, CartLine}
use cafe_retail_software.Result.{Result, validation_error, forbidden, ok}
use cafe_retail_software.Prelude.{
  Bool, ℕ, Option, if◌then◌else◌, ◌+◌, ◌*◌, ltb, some, ◌==◌, or_else, ◌||◌, none, leb, ◌-◌, List,
  ◌∷◌, [],
}
use cafe_retail_software.Money.{Text, round_div, scaled, multiply, decimal}
use cafe_retail_software.Result.Pure.{◌>>=◌, ◌>>◌, guard}

-- What the lookups of a line have found: the product it is linked to, the rates in hundredths
-- of a percent, and whether stock is kept of it.
pub record Sold : Type 0 where
  pub product_id : Option ℕ
  pub unit_cost : Option Text
  pub gst_rate : ℕ
  pub cess_rate : ℕ
  pub tracks_stock : Bool

-- The four taxes of a line, in hundredths.
pub record Taxes : Type 0 where
  pub cgst : ℕ
  pub sgst : ℕ
  pub igst : ℕ
  pub cess : ℕ

-- Within a state the tax is in two halves, between states it is one, and the cess is apart.
unfoldable pub taxes_of : Bool → ℕ → ℕ → ℕ → Taxes
unfolding round_div
taxes_of interstate taxable gst_rate cess_rate = record {
  cgst = if interstate then 0 else round_div (taxable * gst_rate) 20000;
  sgst = if interstate then 0 else round_div (taxable * gst_rate) 20000;
  igst = if interstate then round_div (taxable * gst_rate) 10000 else 0;
  cess = round_div (taxable * cess_rate) 10000;
}

abbrev pub all_taxes : Taxes → ℕ
all_taxes t = t.cgst + t.sgst + t.igst + t.cess

-- The unit price: the item's own, or another one that only a manager may give.
unfoldable pub unit_of : Bool → Text → Option Text → Result ℕ
unit_of is_manager price none = scaled price
unit_of is_manager price (some text) = do
  own ← scaled price
  given ← scaled text
  guard (given == own || is_manager) forbidden
  ok given

-- The amounts of a line before its taxes, in hundredths.
pub record Price : Type 0 where
  pub quantity : ℕ
  pub unit : ℕ
  pub discount : ℕ
  pub gross : ℕ

unfoldable pub line_price : Bool → Text → CartLine → Result Price
unfolding unit_of
line_price is_manager price input = do
  quantity ← scaled input.quantity
  guard (ltb 0 quantity) validation_error
  unit ← unit_of is_manager price input.unit_price
  discount ← scaled (or_else input.discount zero_text)
  guard (discount == 0 || is_manager) forbidden
  gross ← multiply unit quantity
  guard (leb discount gross) validation_error
  ok (record { quantity = quantity; unit = unit; discount = discount; gross = gross })

-- The line as it is stored, with its amounts printed.
unfoldable pub printed_line : ℕ → Sold → Price → Taxes → Result InvoiceItem
printed_line id sold p taxes = do
  total_text ← decimal (pos (p.gross - p.discount + all_taxes taxes))
  taxable_text ← decimal (pos (p.gross - p.discount))
  quantity_text ← decimal (pos p.quantity)
  unit_text ← decimal (pos p.unit)
  discount_text ← decimal (pos p.discount)
  gst_text ← decimal (pos sold.gst_rate)
  cgst_text ← decimal (pos taxes.cgst)
  sgst_text ← decimal (pos taxes.sgst)
  igst_text ← decimal (pos taxes.igst)
  cess_text ← decimal (pos taxes.cess)
  cost ← scaled (or_else sold.unit_cost zero_text)
  cost_total ← multiply cost p.quantity
  profit_text ← decimal (pos (p.gross - p.discount) -ℤ pos cost_total)
  ok (record {
    id = id;
    product_id = sold.product_id;
    quantity = quantity_text;
    unit_price = unit_text;
    discount = discount_text;
    taxable_value = taxable_text;
    gst_rate = gst_text;
    cgst_total = cgst_text;
    sgst_total = sgst_text;
    igst_total = igst_text;
    cess_total = cess_text;
    line_total = total_text;
    tracks_stock = sold.tracks_stock;
    gross_profit = profit_text;
  })

-- `items.reduce((n, i) => n + scaled(…), 0)`
unfoldable pub sum_texts : (InvoiceItem → Text) → List InvoiceItem → Result ℕ
sum_texts f [] = ok 0
sum_texts f (item ∷ items) = do n ← scaled (f item); rest ← sum_texts f items; ok (n + rest)
