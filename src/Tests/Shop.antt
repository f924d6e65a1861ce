-- ===== src/Tests/Shop.antt =====
-- Stock, the ledger, the day, access and amounts at concrete inputs.
use cafe_retail_software.Closing.Steps.{IsStepped}
use cafe_retail_software.Inventory.Booked.{IsStocked}
use cafe_retail_software.Closing.Days.{closing_shuts, closing-IsStepped}
use cafe_retail_software.Security.Isolation.{
  scoped_isolation, authorized_branch_scope, IsMember, account_active-IsMember,
}
use cafe_retail_software.Purchasing.Lines.{no_quantity}
use cafe_retail_software.Money.RoundTrip.{scaled-decimal, scaled-decimal_negative}
use cafe_retail_software.Money.Bounds.{amount_limit, scaled_bound}
use cafe_retail_software.Documents.Operations.{OperationKey, purchase_outcome}
use cafe_retail_software.Closing.{
  submit, submit_record, DayBody, writable_day, closing, Clock, Collected,
}
use cafe_retail_software.Replay.{replay, RequestKey, save_replay, replay-save_replay}
use cafe_retail_software.Result.{ok, Result, err, invalid_decimal, idempotency_conflict}
use cafe_retail_software.Ledger.Balance.{IsBalanced, post_ledger-IsBalanced}
use cafe_retail_software.Inventory.Stock.{adjust_stock, adjust_insufficient}
use cafe_retail_software.Mongo.Lists.{lists}
use cafe_retail_software.Ledger.Statement.{total}
use cafe_retail_software.Prelude.Int.{◌+ℤ◌, ◌-ℤ◌, ℤ, pos, negsuc}
use cafe_retail_software.Tests.World.{
  words, two, ten, desk, state_after, start, regular, manager, today_record, tea_order, given,
  venture_one,
}
use cafe_retail_software.Prelude.{
  ◌∷◌, [], none, All, ◌≢◌, arith, refl, ◌≡◌, ◌<◌, List, some, true, false, length, ◌&&◌, ◌⊎◌, ◌==◌,
}
use cafe_retail_software.Security.{
  managers, authorized_branch, owners, account_active, scoped, in_scope, is_super_admin, absent,
  is_known, branch_roles, cafe_roles, is_admin,
}
use cafe_retail_software.Money.{scaled, decimal, trimmed_length, Text}
use cafe_retail_software.Inventory.{adjust, Adjustment, signed_change}
use cafe_retail_software.Ledger.{post_ledger, Posting}
use cafe_retail_software.Documents.{
  Movement, manual_adjustment, invoice_entry, LedgerEntry, User, payment_entry, Closure, staff,
  cash, admin,
}

abbrev more_tea : Adjustment
more_tea = record { branch_id = 1; product_id = 1; reason = words; quantity_change = two }

abbrev much_less_tea : Adjustment
much_less_tea = record more_tea { quantity_change = b'-' ∷ ten }

adjust_stock_example : All IsStocked (state_after (adjust lists desk more_tea start)).inventory
unfolding adjust managers trimmed_length signed_change scaled authorized_branch ◌+ℤ◌ decimal
adjust_stock_example = (adjust_stock lists desk more_tea start refl).4 (omega arith, tt)

abbrev no_movement : Movement
no_movement = record {
  id = 0;
  company_id = 1;
  branch_id = 1;
  product_id = 1;
  movement_type = manual_adjustment;
  quantity_change = [];
  reference_id = none;
  created_by = 1;
}

adjust_insufficient_example : adjust lists desk much_less_tea start ≢ ok (no_movement, start)
unfolding adjust managers trimmed_length signed_change scaled authorized_branch ◌+ℤ◌ decimal
adjust_insufficient_example =
    adjust_insufficient lists desk much_less_tea (negsuc 999) start refl (omega arith)

abbrev sale_on_account : Posting
sale_on_account = record {
  debit = 700;
  credit = 200;
  entry_type = invoice_entry;
  reference_id = 1;
  branch_id = 1;
}

post_ledger-IsBalanced_example :
    IsBalanced 1 1
      (state_after (post_ledger lists desk 1 sale_on_account start)).customers
      (state_after (post_ledger lists desk 1 sale_on_account start)).ledger
unfolding post_ledger scaled decimal ◌+ℤ◌ ◌-ℤ◌ total
post_ledger-IsBalanced_example =
    post_ledger-IsBalanced lists desk 1 sale_on_account start (omega arith) (omega arith) refl
      (record { holder = regular; found = refl; opening = 1000; opens = refl; owes = refl })

abbrev day_body : DayBody
day_body = record {
  branch_id = 1;
  business_date = 20;
  opening_cash = ten;
  counted_cash = ten;
  reason = words;
}

abbrev clock : Clock
clock = record { today = 20; now = 0 }

closing-IsStepped_example :
    (r : Closure) × (lists.find_one
        (λ c. in_scope desk c.company_id c.branch_id && c.id == 1)
        start.closures
      ≡ some r)
    × IsStepped desk r
        (given today_record (closing lists desk clock day_body (some 1) submit start))
        start.closures
        (state_after (closing lists desk clock day_body (some 1) submit start)).closures
    × (managers admin ≡ true)
unfolding closing submit_record managers owners trimmed_length scaled decimal authorized_branch ◌+ℤ◌
    ◌-ℤ◌
closing-IsStepped_example = closing-IsStepped lists desk clock day_body 1 submit start refl

closing_shuts_example :
    writable_day lists desk 1 20
      (state_after (closing lists desk clock day_body (some 1) submit start))
    ≢ ok (tt, start)
unfolding closing submit_record managers owners trimmed_length scaled decimal authorized_branch ◌+ℤ◌
    ◌-ℤ◌
closing_shuts_example = closing_shuts lists desk clock day_body 1 submit start desk refl refl refl

abbrev taken : List Collected
taken =
    (record { is_credit_marker = false; mode_type = cash; amount = two; business_date = 20 }) ∷ []

abbrev record_of : Result Closure → Closure
record_of (ok r) = r
record_of (err e) = today_record

abbrev request : RequestKey
request = record { length = 10; id = 7; hash = 8 }

abbrev saved : OperationKey
saved = record { id = 7; hash = 8; result = purchase_outcome tea_order }

replay-save_replay_example :
    (request.hash ≡ saved.hash
      → replay lists request (record start { operation_keys = saved ∷ [] })
        ≡ ok (some (purchase_outcome tea_order), record start { operation_keys = saved ∷ [] }))
    × (request.hash ≢ saved.hash
        → replay lists request (record start { operation_keys = saved ∷ [] })
          ≡ err idempotency_conflict)
unfolding replay save_replay
replay-save_replay_example =
    replay-save_replay lists request request (purchase_outcome tea_order) start start
      (record start { operation_keys = saved ∷ [] }) refl refl refl refl

abbrev clerk : User
clerk = record manager { role = staff; branch_id = some 1 }

scoped_isolation_example : venture_one.business_group_id ≡ clerk.business_group_id
unfolding scoped is_super_admin managers owners trimmed_length scaled decimal authorized_branch ◌+ℤ◌
scoped_isolation_example = (scoped_isolation lists clerk absent start refl).1

authorized_branch_scope_example : in_scope desk 1 1 ≡ true
unfolding authorized_branch managers owners trimmed_length scaled decimal ◌+ℤ◌ ◌-ℤ◌
authorized_branch_scope_example = (authorized_branch_scope lists desk 1 start refl).3

account_active-IsMember_example :
    ((is_super_admin staff ≡ true) × (clerk.company_id ≡ none) × (clerk.branch_id ≡ none))
    ⊎ IsMember lists clerk
unfolding account_active is_known is_super_admin branch_roles cafe_roles is_admin managers owners
    trimmed_length scaled decimal authorized_branch ◌+ℤ◌ ◌-ℤ◌
account_active-IsMember_example = account_active-IsMember lists clerk start refl

abbrev entry : LedgerEntry
entry = record {
  id = 1;
  company_id = 1;
  branch_id = 1;
  customer_id = 1;
  entry_type = payment_entry;
  debit = no_quantity;
  credit = two;
  running_balance = two;
  reference_id = 1;
}

abbrev printed : Result (List Text × ℤ) → List Text
printed (ok p) = p.0
printed (err e) = []

scaled-decimal_example : (t : Text) × (decimal (pos 1234) ≡ ok t) × (scaled t ≡ ok 1234)
scaled-decimal_example = scaled-decimal 1234 (omega arith)

scaled-decimal_negative_example : scaled (b'-' ∷ two) ≡ err invalid_decimal
unfolding decimal
scaled-decimal_negative_example = scaled-decimal_negative 199 refl

scaled_bound_example : 1000 < amount_limit
unfolding scaled
scaled_bound_example = scaled_bound ten refl
