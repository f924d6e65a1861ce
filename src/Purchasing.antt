-- ===== src/Purchasing.antt =====
-- apps/web/src/server/purchasing.ts, `purchases`: drafts of purchase orders, and the actions that take an
-- order from its draft to the receipt of the goods. The list and the lookup of GET are not modelled.
pub mod Lines
pub mod Draft
pub mod Actions
pub mod Handler
pub mod Receipt
pub mod Moves
pub mod Life
pub mod Shelf
pub mod Moved
pub mod Totals
pub mod Priced
pub mod Drafts
pub mod Orders
use cafe_retail_software.Documents.Operations.{Outcome}
use cafe_retail_software.Inventory.{record_movement, new_stock, active_product, of_product}
use cafe_retail_software.Database.{next_id, Database, required_row, purchase_counter}
use cafe_retail_software.Replay.{save_replay, replay, RequestKey}
use cafe_retail_software.Money.{scaled}
use cafe_retail_software.Purchasing.Lines.{
  LineInput, ReceiptInput, sum_scaled, receive_lines, some_remaining, priced_line,
}
use cafe_retail_software.Documents.{Inventory, Supplier}
use cafe_retail_software.Result.{
  Result, ok, Action, ◌>>=◌, ◌>>◌, pure, modify, require_value, lift, err, validation_error,
}
use cafe_retail_software.Security.{Scope, in_scope, audit, allow, managers}
use cafe_retail_software.Documents.Purchases.{
  PurchaseItem, PurchaseStatus, PurchaseOrder, pending_approval, approved, draft, ordered,
  partially_received, cancelled, received,
}
use cafe_retail_software.Prelude.Int.{ℤ, pos, nat_abs, ◌+ℤ◌, neg, ltb_ℤ}
use cafe_retail_software.Prelude.{
  Option, ℕ, Bool, true, some, List, none, if◌then◌else◌, ◌==◌, not, false, or_else, ◌||◌, ◌&&◌,
  opt_eq, leb, length, [], ◌∷◌, includes, ◌+◌,
}
use cafe_retail_software.Mongo.{Mongo}

pub data PurchaseAction : Type 0 where
  submit approve cancel mark_ordered receive : PurchaseAction

pub data Method : Type 0 where
  post put other_method : Method

-- The request's body: `receipts` is what `items` holds in a receipt, `items` what it holds in a draft.
pub record PurchaseBody : Type 0 where
  pub branch_id : Option ℕ
  pub supplier_id : Option ℕ
  pub items : List LineInput
  pub receipts : List ReceiptInput

abbrev pub is_post : Method → Bool
is_post post = true
is_post _ = false

abbrev pub is_put : Method → Bool
is_put put = true
is_put _ = false

-- Which methods an order, and an action on it, is asked with. An `id` of 0 counts as none.
pub is_supported : Option ℕ → Option PurchaseAction → Method → Bool
is_supported none action method = is_post method
is_supported (some id) none method = is_put method
is_supported (some id) (some action) method = is_post method

pub is_draft : PurchaseStatus → Bool
is_draft draft = true
is_draft _ = false

-- The statuses of the list `open`.
pub is_open : PurchaseStatus → Bool
is_open draft = true
is_open pending_approval = true
is_open approved = true
is_open ordered = true
is_open partially_received = true
is_open _ = false

abbrev pub is_pending : PurchaseStatus → Bool
is_pending pending_approval = true
is_pending _ = false

abbrev pub is_approved : PurchaseStatus → Bool
is_approved approved = true
is_approved _ = false

-- The goods are on their way.
pub is_ordered : PurchaseStatus → Bool
is_ordered ordered = true
is_ordered partially_received = true
is_ordered _ = false

abbrev pub is_receive : PurchaseAction → Bool
is_receive receive = true
is_receive _ = false

-- `transitions`: the statuses an action starts from, and the one it leads to.
pub starts_from : PurchaseAction → PurchaseStatus → Bool
unfolding is_draft is_open is_ordered
starts_from submit status = is_draft status
starts_from approve status = is_pending status
starts_from mark_ordered status = is_approved status
starts_from cancel status = is_open status
starts_from receive status = is_ordered status

abbrev pub leads_to : PurchaseAction → PurchaseStatus
leads_to submit = pending_approval
leads_to approve = approved
leads_to mark_ordered = ordered
leads_to cancel = cancelled
leads_to receive = received

-- The actions that only an owner or a company's admin takes.
pub for_owner : PurchaseAction → PurchaseStatus → Bool
unfolding is_draft
for_owner approve status = true
for_owner cancel status = not (is_draft status || is_pending status)
for_owner _ status = false

-- How many of a line an action moves: what arrived, or what is still to come.
pub line_quantity : PurchaseAction → PurchaseItem → Result ℕ
line_quantity receive item = ok (or_else item.received_now 0)
line_quantity _ item = scaled item.remaining_quantity

-- What an action adds to the quantity on order.
pub on_order_change : PurchaseAction → PurchaseStatus → ℕ → ℤ
unfolding is_ordered
on_order_change mark_ordered status quantity = pos quantity
on_order_change cancel status quantity = if is_ordered status then neg (pos quantity) else pos 0
on_order_change receive status quantity = neg (pos quantity)
on_order_change _ status quantity = pos 0

-- Whether a line is passed over: `(!ordered && action !== "receive") || !quantity`.
abbrev pub is_skipped : PurchaseAction → ℤ → ℕ → Bool
is_skipped action change quantity =
    ((nat_abs change == 0) && not (is_receive action)) || (quantity == 0)

abbrev pub stock_change : PurchaseAction → ℕ → ℤ
stock_change receive quantity = pos quantity
stock_change _ quantity = pos 0

abbrev pub add_ordered : ℤ → ℤ → Inventory → Inventory
add_ordered change expected r = record r {
  quantity_scaled = r.quantity_scaled +ℤ change;
  on_order_scaled = r.on_order_scaled +ℤ expected;
}

abbrev pub cleared : PurchaseItem → PurchaseItem
cleared item = record item { received_now = none }

abbrev pub order_in_scope : Scope → ℕ → PurchaseOrder → Bool
order_in_scope scope id r = in_scope scope r.company_id r.branch_id && (r.id == id)

abbrev pub active_supplier : ℕ → Option ℕ → Supplier → Bool
active_supplier company id r = (r.company_id == company) && opt_eq (some r.id) id && r.is_active

abbrev pub saved_order : ℕ → ℕ → PurchaseOrder → Bool
saved_order id company r = (r.id == id) && (r.company_id == company)

-- The fields of the order in the row that an edit starts from.
abbrev pub old_branch : Option PurchaseOrder → Option ℕ
old_branch none = none
old_branch (some r) = some r.branch_id

abbrev pub old_supplier : Option PurchaseOrder → Option ℕ
old_supplier none = none
old_supplier (some r) = some r.supplier_id
