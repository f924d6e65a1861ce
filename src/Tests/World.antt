-- ===== src/Tests/World.antt =====
-- A small cafe with one branch, as data for the examples.
use cafe_retail_software.Mongo.Lists.{lists}
use cafe_retail_software.Prelude.Int.{pos}
use cafe_retail_software.Purchasing.Lines.{no_quantity}
use cafe_retail_software.Prelude.{true, some, ◌∷◌, none, [], false}
use cafe_retail_software.Documents.Invoices.{Invoice, non_gst, credited, retail_sale}
use cafe_retail_software.Security.{Scope}
use cafe_retail_software.Documents.Purchases.{PurchaseItem, PurchaseOrder, ordered}
use cafe_retail_software.Money.{Text}
use cafe_retail_software.Database.{Database}
use cafe_retail_software.Documents.{
  Closure, Product, User, Inventory, Company, PaymentMode, Customer, admin, cafe, cash, opened,
}
use cafe_retail_software.Result.{Result, ok, err}
use cafe_retail_software.Documents.Cafe.{
  served, CafeTable, Order, TableSession, MenuItem, session_open, dine_in,
}

abbrev pub two : Text
two = b'2' ∷ b'.' ∷ b'0' ∷ b'0' ∷ []

abbrev pub five : Text
five = b'5' ∷ []

abbrev pub ten : Text
ten = b'1' ∷ b'0' ∷ b'.' ∷ b'0' ∷ b'0' ∷ []

abbrev pub words : Text
words = b'c' ∷ b'o' ∷ b'u' ∷ b'n' ∷ b't' ∷ []

abbrev pub manager : User
manager = record {
  id = 1;
  role = admin;
  business_group_id = 1;
  company_id = some 1;
  branch_id = none;
  mfa_enabled = true;
  last_step_up_at = none;
}

abbrev pub venture_one : Company
venture_one = record { id = 1; business_group_id = 1; business_type = cafe; is_active = true }

abbrev pub desk : Scope
desk = record { user = manager; company = venture_one }

abbrev pub tea : Product
tea = record {
  id = 1;
  company_id = 1;
  is_active = true;
  supplier_id = 1;
  selling_price = ten;
  unit_cost = some five;
  gst_rate_id = none;
  cess_rate_percent = none;
  is_service = false;
}

abbrev pub tea_stock : Inventory
tea_stock = record {
  id = 1;
  company_id = 1;
  branch_id = 1;
  product_id = 1;
  quantity_scaled = pos 500;
  on_order_scaled = pos 1000;
}

abbrev pub regular : Customer
regular = record {
  id = 1;
  company_id = 1;
  branch_id = none;
  is_active = true;
  outstanding_scaled = none;
  outstanding_balance = none;
  available_credit = none;
  opening_balance = some ten;
  credit_limit = none;
  state_code = none;
}

abbrev pub cash_mode : PaymentMode
cash_mode = record {
  id = 1;
  company_id = 1;
  is_active = true;
  mode_type = cash;
  requires_reference = false;
}

abbrev pub today_record : Closure
today_record = record {
  id = 1;
  company_id = 1;
  branch_id = 1;
  business_date = 20;
  opening_cash = ten;
  cash_collections = five;
  non_cash_total = five;
  expected_cash = ten;
  counted_cash = none;
  variance = none;
  status = opened;
  submitted_by = none;
  closed_by = none;
  reopened_by = none;
}

abbrev pub tea_line : PurchaseItem
tea_line = record {
  id = 1;
  product_id = 1;
  quantity_ordered = ten;
  quantity_received = no_quantity;
  remaining_quantity = ten;
  unit_cost = five;
  line_total = five;
  received_now = none;
}

abbrev pub tea_order : PurchaseOrder
tea_order = record {
  id = 1;
  company_id = 1;
  branch_id = 1;
  supplier_id = 1;
  status = ordered;
  items = tea_line ∷ [];
  total_amount = five;
  total_quantity_ordered = ten;
  total_quantity_received = no_quantity;
  version = 3;
  created_by = 1;
  approved_by = some 1;
}

abbrev pub corner : CafeTable
corner = record {
  id = 1;
  company_id = 1;
  branch_id = 1;
  is_active = true;
  qr_active = true;
  active_session_public_id = none;
  active_session_status = none;
  version = 1;
}

abbrev pub seated : TableSession
seated = record {
  id = 1;
  company_id = 1;
  branch_id = 1;
  table_id = 2;
  public_id = 70;
  status = session_open;
  opened_by = 1;
  closed_by = none;
  billed_invoice_id = none;
  version = 4;
}

abbrev pub empty_session : TableSession
empty_session = record seated { id = 2; public_id = 71; table_id = 3 }

abbrev pub served_order : Order
served_order = record {
  id = 1;
  company_id = 1;
  branch_id = 1;
  public_id = 80;
  table_session_public_id = some 70;
  table_id = some 2;
  order_type = dine_in;
  status = served;
  subtotal = ten;
  estimated_total = ten;
  items = [];
  created_by = some 1;
  accepted_by = some 1;
  version = 3;
  billed_invoice_id = none;
  counter_items = [];
}

abbrev pub cup : MenuItem
cup = record {
  id = 1;
  company_id = 1;
  branch_id = none;
  public_id = 90;
  is_active = true;
  available = true;
  selling_price = two;
  product_id = some 1;
  gst_rate_id = none;
  cess_rate_percent = none;
  unit_cost = none;
  is_service = false;
  version = 1;
}

abbrev pub bill : Invoice
bill = record {
  id = 1;
  company_id = 1;
  branch_id = 1;
  invoice_number = b'A' ∷ b'1' ∷ [];
  invoice_type = non_gst;
  customer_id = some 1;
  status = credited;
  grand_total = ten;
  paid_amount = no_quantity;
  balance_due = ten;
  items = [];
  source_type = retail_sale;
  source_id = 5;
  idempotency_key = 1;
  request_hash = 1;
  draft_payload = none;
}

abbrev pub start : Database lists
start = record {
  groups = (record { id = 1; is_active = true }) ∷ [];
  companies = venture_one ∷ [];
  branches = (record { id = 1; company_id = 1; is_active = true; write_version = 0 }) ∷ [];
  products = tea ∷ [];
  suppliers = [];
  inventory = tea_stock ∷ [];
  movements = [];
  customers = regular ∷ [];
  ledger = [];
  payment_modes = cash_mode ∷ [];
  customer_payments = [];
  invoice_payments = [];
  closures = today_record ∷ [];
  audit_events = [];
  reconciliations = [];
  purchase_orders = tea_order ∷ [];
  orders = served_order ∷ [];
  sessions = seated ∷ empty_session ∷ [];
  tables = corner ∷ [];
  qr_tokens = [];
  menu_items = cup ∷ [];
  profiles = [];
  tax_rates = [];
  invoices = bill ∷ [];
  sequences = [];
  operation_keys = [];
  counters = λ k. 10;
}

-- What a step that returns gives, and the state after it.
abbrev pub state_after : {A : Type 0} → Result (A × Database lists) → Database lists
state_after (ok p) = p.1
state_after (err e) = start

abbrev pub given : {A : Type 0} → A → Result (A × Database lists) → A
given a (ok p) = p.0
given a (err e) = a
