-- ===== src/Documents.antt =====
-- The documents of the collections that apps/web/src/server reads and writes (db.ts: `Row`), each with the
-- fields that its handlers decide by or compute. An identifier that is null or 0 is `none`, a random
-- identifier (`randomUUID`) a number, a calendar day its number, an amount the text that is stored.
pub mod Cafe
pub mod Invoices
pub mod Operations
pub mod Purchases
use cafe_retail_software.Prelude.{ℕ, Bool, Option, List}
use cafe_retail_software.Prelude.Int.{ℤ}
use cafe_retail_software.Money.{Text}

pub data Role : Type 0 where
  super_admin admin store_manager staff order_taker kitchen analyst unknown_role : Role

pub data BusinessType : Type 0 where
  retail cafe : BusinessType

pub record User : Type 0 where
  pub id : ℕ
  pub role : Role
  pub business_group_id : ℕ
  pub company_id : Option ℕ
  pub branch_id : Option ℕ
  pub mfa_enabled : Bool
  -- In milliseconds.
  pub last_step_up_at : Option ℕ

pub record Company : Type 0 where
  pub id : ℕ
  pub business_group_id : ℕ
  pub business_type : BusinessType
  pub is_active : Bool

pub record Group : Type 0 where
  pub id : ℕ
  pub is_active : Bool

pub record Branch : Type 0 where
  pub id : ℕ
  pub company_id : ℕ
  pub is_active : Bool
  pub write_version : ℕ

pub record Product : Type 0 where
  pub id : ℕ
  pub company_id : ℕ
  pub is_active : Bool
  pub supplier_id : ℕ
  pub selling_price : Text
  pub unit_cost : Option Text
  pub gst_rate_id : Option ℕ
  pub cess_rate_percent : Option Text
  pub is_service : Bool

pub record Supplier : Type 0 where
  pub id : ℕ
  pub company_id : ℕ
  pub is_active : Bool

pub record Inventory : Type 0 where
  pub id : ℕ
  pub company_id : ℕ
  pub branch_id : ℕ
  pub product_id : ℕ
  pub quantity_scaled : ℤ
  pub on_order_scaled : ℤ

pub data MovementType : Type 0 where
  manual_adjustment purchase_received sale : MovementType

pub record Movement : Type 0 where
  pub id : ℕ
  pub company_id : ℕ
  pub branch_id : ℕ
  pub product_id : ℕ
  pub movement_type : MovementType
  pub quantity_change : Text
  pub reference_id : Option ℕ
  pub created_by : ℕ

pub record Customer : Type 0 where
  pub id : ℕ
  pub company_id : ℕ
  pub branch_id : Option ℕ
  pub is_active : Bool
  pub outstanding_scaled : Option ℤ
  pub outstanding_balance : Option Text
  pub available_credit : Option Text
  pub opening_balance : Option Text
  pub credit_limit : Option Text
  pub state_code : Option ℕ

pub data EntryType : Type 0 where
  invoice_entry payment_entry : EntryType

pub record LedgerEntry : Type 0 where
  pub id : ℕ
  pub company_id : ℕ
  pub branch_id : ℕ
  pub customer_id : ℕ
  pub entry_type : EntryType
  pub debit : Text
  pub credit : Text
  pub running_balance : Text
  pub reference_id : ℕ

pub data ModeType : Type 0 where
  cash upi card bank_transfer wallet cheque other credit unknown_mode : ModeType

pub record PaymentMode : Type 0 where
  pub id : ℕ
  pub company_id : ℕ
  pub is_active : Bool
  pub mode_type : ModeType
  pub requires_reference : Bool

pub record CustomerPayment : Type 0 where
  pub id : ℕ
  pub company_id : ℕ
  pub branch_id : ℕ
  pub customer_id : ℕ
  pub mode_type : ModeType
  pub amount : Text
  -- The business date of `payment_datetime`.
  pub business_date : ℕ
  pub ledger_entry_id : Option ℕ

pub record InvoicePayment : Type 0 where
  pub id : ℕ
  pub company_id : ℕ
  pub branch_id : ℕ
  pub invoice_id : ℕ
  pub mode_type : ModeType
  pub amount : Text
  pub is_credit_marker : Bool
  pub business_date : ℕ

pub data DayStatus : Type 0 where
  opened submitted closed reopened : DayStatus

pub record Closure : Type 0 where
  pub id : ℕ
  pub company_id : ℕ
  pub branch_id : ℕ
  pub business_date : ℕ
  pub opening_cash : Text
  pub cash_collections : Text
  pub non_cash_total : Text
  pub expected_cash : Text
  pub counted_cash : Option Text
  pub variance : Option Text
  pub status : DayStatus
  pub submitted_by : Option ℕ
  pub closed_by : Option ℕ
  pub reopened_by : Option ℕ

-- The result of a check of the stored state, with the documents that it found at fault.
pub record Reconciliation : Type 0 where
  pub id : ℕ
  pub company_id : ℕ
  pub branch_id : Option ℕ
  pub is_clean : Bool
  pub invoice_issues : List ℕ
  pub payment_issues : List ℕ
  pub stock_issues : List ℕ
  pub order_issues : List ℕ

pub record AuditEvent : Type 0 where
  pub id : ℕ
  pub company_id : ℕ
  pub branch_id : Option ℕ
  pub actor_id : ℕ
  pub entity_id : ℕ
