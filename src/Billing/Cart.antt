-- ===== src/Billing/Cart.antt =====
-- apps/web/src/server/billing.ts, `quote`: the cart, and what is read off the settings and the rates.
use cafe_retail_software.Result.{Result, ok}
use cafe_retail_software.Documents.Invoices.{Linked}
use cafe_retail_software.Documents.{Product, Customer}
use cafe_retail_software.Documents.Invoices.{
  InvoiceType, Profile, InvoiceItem, TaxRate, gst, non_gst,
}
use cafe_retail_software.Ledger.{zero_text}
use cafe_retail_software.Documents.Cafe.{MenuItem}
use cafe_retail_software.Money.{Text, scaled}
use cafe_retail_software.Prelude.{
  ℕ, Bool, Option, some, true, not, List, ◌&&◌, if◌then◌else◌, none, false, leb, ◌==◌, or_else,
}

pub record Quote : Type 0 where
  pub branch_id : ℕ
  pub customer_id : Option ℕ
  pub invoice_type : InvoiceType
  pub subtotal : Text
  pub discount_total : Text
  pub taxable_total : Text
  pub cgst_total : Text
  pub sgst_total : Text
  pub igst_total : Text
  pub cess_total : Text
  pub grand_total : Text
  pub items : List InvoiceItem

abbrev pub is_gst : InvoiceType → Bool
is_gst gst = true
is_gst non_gst = false

abbrev pub type_for : Bool → InvoiceType
type_for active = if active then gst else non_gst

-- The profile asks for GST, from a day that has come.
abbrev pub gst_active : Profile → ℕ → Bool
gst_active p day =
    is_gst p.default_tax_mode && elim p.gst_effective_from [ none ↦ false | some d ↦ leb d day ]

abbrev pub asked_type : Option InvoiceType → Bool → InvoiceType
asked_type none active = type_for active
asked_type (some t) active = t

abbrev pub same_test : Bool → Bool → Bool
same_test true b = b
same_test false b = not b

abbrev pub customer_state : Option Customer → Option ℕ
customer_state none = none
customer_state (some c) = c.state_code

abbrev pub customer_branch : Option Customer → Option ℕ
customer_branch none = none
customer_branch (some c) = c.branch_id

abbrev pub product_linked : Product → Linked
product_linked p = record {
  gst_rate_id = p.gst_rate_id;
  cess_rate_percent = p.cess_rate_percent;
  unit_cost = p.unit_cost;
  is_service = p.is_service;
}

abbrev pub item_linked : MenuItem → Linked
item_linked p = record {
  gst_rate_id = p.gst_rate_id;
  cess_rate_percent = p.cess_rate_percent;
  unit_cost = p.unit_cost;
  is_service = p.is_service;
}

abbrev pub rate_percent_of : Option TaxRate → Text
rate_percent_of none = zero_text
rate_percent_of (some r) = or_else r.rate_percent zero_text

abbrev pub cess_percent_of : Option TaxRate → Text
cess_percent_of none = zero_text
cess_percent_of (some r) = or_else r.cess_percent zero_text

-- The rates of a line in hundredths of a percent: the product's own cess goes before the rate's.
unfoldable pub gst_rate_of : Bool → Option TaxRate → Result ℕ
gst_rate_of active rate = if active then scaled (rate_percent_of rate) else ok 0

unfoldable pub cess_rate_of : Bool → Option TaxRate → ℕ → Result ℕ
cess_rate_of active rate own =
    if active then (if own == 0 then scaled (cess_percent_of rate) else ok own) else ok 0
