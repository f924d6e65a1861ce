-- ===== src/Documents/Purchases.antt =====
-- The documents of purchasing.ts: purchase orders and their lines.
use cafe_retail_software.Prelude.{ℕ, Option, List}
use cafe_retail_software.Money.{Text}

pub data PurchaseStatus : Type 0 where
  draft pending_approval approved ordered partially_received received cancelled : PurchaseStatus

pub record PurchaseItem : Type 0 where
  pub id : ℕ
  pub product_id : ℕ
  pub quantity_ordered : Text
  pub quantity_received : Text
  pub remaining_quantity : Text
  pub unit_cost : Text
  pub line_total : Text
  -- Set while a receipt is booked.
  pub received_now : Option ℕ

pub record PurchaseOrder : Type 0 where
  pub id : ℕ
  pub company_id : ℕ
  pub branch_id : ℕ
  pub supplier_id : ℕ
  pub status : PurchaseStatus
  pub items : List PurchaseItem
  pub total_amount : Text
  pub total_quantity_ordered : Text
  pub total_quantity_received : Text
  pub version : ℕ
  pub created_by : ℕ
  pub approved_by : Option ℕ
