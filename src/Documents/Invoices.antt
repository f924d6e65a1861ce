-- ===== src/Documents/Invoices.antt =====
-- The documents of billing.ts: the venture's tax settings, and invoices with their lines.
use cafe_retail_software.Prelude.{ℕ, Bool, Option, List}
use cafe_retail_software.Money.{Text}

pub data InvoiceType : Type 0 where
  gst non_gst : InvoiceType

pub record Profile : Type 0 where
  pub company_id : ℕ
  pub default_tax_mode : InvoiceType
  pub gst_effective_from : Option ℕ
  pub has_gstin : Bool
  pub state_code : Option ℕ

pub record TaxRate : Type 0 where
  pub id : ℕ
  pub company_id : ℕ
  pub is_active : Bool
  pub rate_percent : Option Text
  pub cess_percent : Option Text

pub record InvoiceItem : Type 0 where
  pub id : ℕ
  pub product_id : Option ℕ
  pub quantity : Text
  pub unit_price : Text
  pub discount : Text
  pub taxable_value : Text
  pub gst_rate : Text
  pub cgst_total : Text
  pub sgst_total : Text
  pub igst_total : Text
  pub cess_total : Text
  pub line_total : Text
  pub tracks_stock : Bool
  pub gross_profit : Text

-- One line of a cart, with `unit_price` and `discount` where the request gives them.
pub record CartLine : Type 0 where
  pub quantity : Text
  pub unit_price : Option Text
  pub discount : Option Text

-- The fields of a product, or of an item of the menu that is linked to none.
pub record Linked : Type 0 where
  pub gst_rate_id : Option ℕ
  pub cess_rate_percent : Option Text
  pub unit_cost : Option Text
  pub is_service : Bool

-- An item of the menu or a product: its price, and what its taxes are found by.
pub record CartItem : Type 0 where
  pub selling_price : Text
  pub product_id : Option ℕ
  pub linked : Linked

-- One entry of `body.items`, with the snapshot at its index where a cafe bill passes them: an identifier
-- that is not of the form asked for is `none`.
pub record CartEntry : Type 0 where
  pub menu_item_public_id : Option ℕ
  pub product_id : Option ℕ
  pub line : CartLine
  pub snapshot : Option CartItem

-- The request's body. A date and an invoice type that are given and are none are marked.
pub record QuoteBody : Type 0 where
  pub branch_id : ℕ
  pub invoice_day : Option ℕ
  pub odd_date : Bool
  pub invoice_type : Option InvoiceType
  pub odd_type : Bool
  pub customer_id : Option ℕ
  pub place_of_supply_state_code : Option ℕ
  pub items : List CartEntry

pub data InvoiceStatus : Type 0 where
  draft cancelled voided returned paid partial_paid credited : InvoiceStatus

pub data SourceType : Type 0 where
  cafe_table_session cafe_takeaway retail_sale : SourceType

pub record Invoice : Type 0 where
  pub id : ℕ
  pub company_id : ℕ
  pub branch_id : ℕ
  pub invoice_number : Text
  pub invoice_type : InvoiceType
  pub customer_id : Option ℕ
  pub status : InvoiceStatus
  pub grand_total : Text
  pub paid_amount : Text
  pub balance_due : Text
  pub items : List InvoiceItem
  pub source_type : SourceType
  pub source_id : ℕ
  pub idempotency_key : ℕ
  pub request_hash : ℕ
  pub draft_payload : Option QuoteBody

-- The numbers of the invoices of a branch, or of all branches.
pub record Sequence : Type 0 where
  pub id : ℕ
  pub company_id : ℕ
  pub branch_id : Option ℕ
  pub is_active : Bool
  pub invoice_type : InvoiceType
  pub prefix : Text
  pub suffix : Option Text
  pub padding : Option ℕ
  pub next_number : ℕ
