-- ===== src/Billing/Taxes.antt =====
-- The taxes of a line are what the rates ask for, to the nearest hundredth (billing.ts, `quote`).
use cafe_retail_software.Ledger.{zero_text}
use cafe_retail_software.Prelude.Int.{pos}
use cafe_retail_software.Result.{ok, validation_error, forbidden, ok-injective}
use cafe_retail_software.Documents.Invoices.{InvoiceItem}
use cafe_retail_software.Money.{Text, scaled, decimal, multiply}
use cafe_retail_software.Money.Rounding.{round_div_nearest, multiply_nearest}
use cafe_retail_software.Prelude.{
  Bool, ℕ, ◌+◌, ◌*◌, ◌≤◌, ◌≡◌, true, false, arith, refl, Option, ◌<◌, ltb, some, ◌==◌, ◌-◌, or_else,
  ◌||◌, none, leb, sym,
}
use cafe_retail_software.Billing.Tax.{
  taxes_of, unit_of, Sold, printed_line, Price, line_price, Taxes, all_taxes,
}
use cafe_retail_software.Documents.Invoices.{CartLine}
use cafe_retail_software.Result.Pure.{>>=-eq-ok, ran, guard}

-- Whether within a state or between states, the tax on the goods is off by at most one hundredth from what the
-- rate asks of the taxable value, the cess by at most half of one, and a line between states has no part of the
-- tax within a state, nor the other way round.
pub taxes_of-nearest :
    (interstate : Bool) (taxable gst_rate cess_rate : ℕ)
    → let t = taxes_of interstate taxable gst_rate cess_rate in
      ((t.cgst + t.sgst + t.igst) * 10000 ≤ taxable * gst_rate + 10000)
      × (taxable * gst_rate ≤ (t.cgst + t.sgst + t.igst) * 10000 + 10000)
      × (2 * (t.cess * 10000) ≤ 2 * (taxable * cess_rate) + 10000)
      × (2 * (taxable * cess_rate) ≤ 2 * (t.cess * 10000) + 10000)
      × (t.cgst ≡ t.sgst)
      × (interstate ≡ true → t.cgst ≡ 0)
      × (interstate ≡ false → t.igst ≡ 0)
unfolding taxes_of
taxes_of-nearest true taxable gst_rate cess_rate =
    let (a, b) = round_div_nearest (taxable * gst_rate) 10000 (omega arith) in
    let (c, d) = round_div_nearest (taxable * cess_rate) 10000 (omega arith) in
    (omega arith, omega arith, omega arith, omega arith, refl, λ e. refl, λ e. ground arith)
taxes_of-nearest false taxable gst_rate cess_rate =
    let (a, b) = round_div_nearest (taxable * gst_rate) 20000 (omega arith) in
    let (c, d) = round_div_nearest (taxable * cess_rate) 10000 (omega arith) in
    (omega arith, omega arith, omega arith, omega arith, refl, λ e. ground arith, λ e. refl)

-- A line of a quote, with the amounts it is printed from.
pub record IsQuoted (is_manager interstate : Bool) (price_text : Text) (sold : Sold)
    (input : CartLine) (p : Price) (item : InvoiceItem) : Type 0 where
  pub own : ℕ
  pub reads_quantity : scaled input.quantity ≡ ok p.quantity
  pub some_quantity : 1 ≤ p.quantity
  pub reads_own : scaled price_text ≡ ok own
  pub own_price : is_manager ≡ false → p.unit ≡ own
  pub full_price : is_manager ≡ false → p.discount ≡ 0
  pub small_discount : p.discount ≤ p.gross
  pub rounded :
      (p.gross * 100 ≤ p.unit * p.quantity + 50) × (p.unit * p.quantity < p.gross * 100 + 50)
  pub total_printed :
      decimal (
        pos (
          p.gross
          - p.discount
          + all_taxes (taxes_of interstate (p.gross - p.discount) sold.gst_rate sold.cess_rate)))
      ≡ ok item.line_total
  pub taxable_printed : decimal (pos (p.gross - p.discount)) ≡ ok item.taxable_value

unit_of-own :
    (is_manager : Bool) (price : Text) (wanted : Option Text) {unit : ℕ}
    → unit_of is_manager price wanted ≡ ok unit
    → (own : ℕ) × (scaled price ≡ ok own) × (is_manager ≡ false → unit ≡ own)
unfolding unit_of
unit_of-own is_manager price none {unit = unit} h = (unit, h, λ e. refl)
unit_of-own is_manager price (some text) h = elim (>>=-eq-ok (scaled price) _ h) [
  | ran own read h1 ↦ elim (>>=-eq-ok (scaled text) _ h1) [
    | ran given other h2 ↦ elim (>>=-eq-ok (guard (given == own || is_manager) forbidden) _ h2) [
      | ran _ good h3 ↦ (own, read, λ e. ground arith)
    ]
  ]
]

printed_line_texts :
    (id : ℕ) (sold : Sold) (p : Price) (taxes : Taxes) {item : InvoiceItem}
    → printed_line id sold p taxes ≡ ok item
    → (decimal (pos (p.gross - p.discount + all_taxes taxes)) ≡ ok item.line_total)
      × (decimal (pos (p.gross - p.discount)) ≡ ok item.taxable_value)
unfolding printed_line
printed_line_texts id sold p taxes h = ground arith

-- A line that is quoted is for a positive quantity at the item's own price and without a discount, unless a
-- manager asks for another price or a discount, which is at most the line's value. That value is price times
-- quantity to the nearest hundredth, and the line's total is the value less the discount and with the taxes.
pub line_price-IsQuoted :
    (is_manager interstate : Bool) (id : ℕ) (price_text : Text) (sold : Sold) (input : CartLine)
    {p : Price} {item : InvoiceItem}
    → line_price is_manager price_text input ≡ ok p
    → printed_line id sold p
        (taxes_of interstate (p.gross - p.discount) sold.gst_rate sold.cess_rate)
      ≡ ok item
    → IsQuoted is_manager interstate price_text sold input p item
unfolding line_price
line_price-IsQuoted is_manager interstate id price_text sold input {p = p} priced k =
    elim (>>=-eq-ok (scaled input.quantity) _ priced) [
      | ran quantity read h1 ↦ elim (>>=-eq-ok (guard (ltb 0 quantity) validation_error) _ h1) [
        | ran _ positive h2 ↦
            elim (>>=-eq-ok (unit_of is_manager price_text input.unit_price) _ h2) [
              | ran unit priced_at h3 ↦
                  elim (>>=-eq-ok (scaled (or_else input.discount zero_text)) _ h3) [
                    | ran discount read_discount h4 ↦
                        elim (>>=-eq-ok (guard (discount == 0 || is_manager) forbidden) _ h4) [
                          | ran _ allowed h5 ↦ elim (>>=-eq-ok (multiply unit quantity) _ h5) [
                            | ran gross multiplied h6 ↦
                                elim (>>=-eq-ok (guard (leb discount gross) validation_error) _
                                  h6) [
                                    | ran _ small h7 ↦
                                        let is_price : p ≡ record {
                                          quantity = quantity;
                                          unit = unit;
                                          discount = discount;
                                          gross = gross;
                                        } =
                                          sym (ok-injective h7) in
                                        let (own, reads_own, same) =
                                          unit_of-own is_manager price_text input.unit_price
                                            priced_at in
                                        let (total, taxable) = printed_line_texts id sold p _ k in
                                        let (low, high, _) =
                                          multiply_nearest unit quantity multiplied in
                                        record {
                                          own = own;
                                          reads_quantity = ground arith;
                                          some_quantity = ground arith;
                                          reads_own = reads_own;
                                          own_price = λ e. ground (arith, same e);
                                          full_price = λ e. ground arith;
                                          small_discount = ground arith;
                                          rounded = (ground arith, ground arith);
                                          total_printed = total;
                                          taxable_printed = taxable;
                                        }
                                  ]
                          ]
                        ]
                  ]
            ]
      ]
    ]
