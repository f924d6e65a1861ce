-- ===== src/Billing/Lines.antt =====
-- All the lines of a quote (billing.ts, `quote`).
use cafe_retail_software.Result.Pure.{ran}
use cafe_retail_software.Result.{ran}
use cafe_retail_software.Billing.Taxes.{IsQuoted}
use cafe_retail_software.Database.{Database}
use cafe_retail_software.Billing.Tax.{Sold, Price}
use cafe_retail_software.Documents.Invoices.{CartLine}
use cafe_retail_software.Money.{Text}
use cafe_retail_software.Documents.Invoices.{InvoiceItem}
use cafe_retail_software.Prelude.{Bool, ◌≤◌}
use cafe_retail_software.Mongo.{Mongo}

-- A line that is priced from some item and rates for some entry.
pub record IsLine (is_manager interstate : Bool) (item : InvoiceItem) : Type 0 where
  pub price_text : Text
  pub sold : Sold
  pub input : CartLine
  pub price : Price
  pub quoted : IsQuoted is_manager interstate price_text sold input price item

module _ (m : Mongo) where
  -- What a line that is quoted is, and the value and the discount of its price.
  record Lined (is_manager interstate : Bool) (p : Price) (item : InvoiceItem) : Type 0 where
    is_line : IsLine is_manager interstate item
    small_discount : p.discount ≤ p.gross
