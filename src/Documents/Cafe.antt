-- ===== src/Documents/Cafe.antt =====
-- The documents of cafe.ts: orders, table sessions, tables and menu items.
use cafe_retail_software.Prelude.{ℕ, Bool, Option, List}
use cafe_retail_software.Documents.Invoices.{InvoiceItem}
use cafe_retail_software.Money.{Text}

pub data OrderStatus : Type 0 where
  placed accepted preparing ready served bill_requested rejected cancelled billed closed :
      OrderStatus

pub data OrderType : Type 0 where
  dine_in takeaway counter : OrderType

pub record OrderItem : Type 0 where
  pub id : ℕ
  pub menu_item_public_id : ℕ
  pub menu_item_id : ℕ
  pub product_id : Option ℕ
  pub quantity : ℕ
  pub unit_price : Text
  pub line_total : Text
  pub status : OrderStatus

pub record Order : Type 0 where
  pub id : ℕ
  pub company_id : ℕ
  pub branch_id : ℕ
  pub public_id : ℕ
  pub table_session_public_id : Option ℕ
  pub table_id : Option ℕ
  pub order_type : OrderType
  pub status : OrderStatus
  pub subtotal : Text
  pub estimated_total : Text
  pub items : List OrderItem
  pub created_by : Option ℕ
  pub accepted_by : Option ℕ
  pub version : ℕ
  pub billed_invoice_id : Option ℕ
  -- The lines of an order that a checkout at the counter inserts: those of its invoice.
  pub counter_items : List InvoiceItem

pub data SessionStatus : Type 0 where
  session_open session_requested session_billed session_closed session_cancelled : SessionStatus

pub record TableSession : Type 0 where
  pub id : ℕ
  pub company_id : ℕ
  pub branch_id : ℕ
  pub table_id : ℕ
  pub public_id : ℕ
  pub status : SessionStatus
  pub opened_by : ℕ
  pub closed_by : Option ℕ
  pub billed_invoice_id : Option ℕ
  pub version : ℕ

pub record CafeTable : Type 0 where
  pub id : ℕ
  pub company_id : ℕ
  pub branch_id : ℕ
  pub is_active : Bool
  pub qr_active : Bool
  pub active_session_public_id : Option ℕ
  pub active_session_status : Option SessionStatus
  pub version : ℕ

pub record QrToken : Type 0 where
  pub id : ℕ
  pub company_id : ℕ
  pub table_id : ℕ
  pub revoked : Bool

pub record MenuItem : Type 0 where
  pub id : ℕ
  pub company_id : ℕ
  pub branch_id : Option ℕ
  pub public_id : ℕ
  pub is_active : Bool
  pub available : Bool
  pub selling_price : Text
  pub product_id : Option ℕ
  pub gst_rate_id : Option ℕ
  pub cess_rate_percent : Option Text
  pub unit_cost : Option Text
  pub is_service : Bool
  pub version : ℕ
