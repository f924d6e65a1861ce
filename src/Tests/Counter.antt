-- ===== src/Tests/Counter.antt =====
-- Orders, tables, purchases and payments at concrete inputs.
use cafe_retail_software.Documents.Invoices.{CartEntry}
use cafe_retail_software.Billing.Accounts.{receive_payment-IsBalanced}
use cafe_retail_software.Ledger.Balance.{IsBalanced}
use cafe_retail_software.Ledger.Statement.{total}
use cafe_retail_software.Ledger.{post_ledger}
use cafe_retail_software.Database.{Database}
use cafe_retail_software.Billing.Taxes.{taxes_of-nearest}
use cafe_retail_software.Documents.Invoices.{InvoiceItem}
use cafe_retail_software.Billing.Tax.{taxes_of}
use cafe_retail_software.Purchasing.Drafts.{IsSound}
use cafe_retail_software.Cafe.Life.{IsHandled, act_on_row-IsHandled}
use cafe_retail_software.Purchasing.Life.{IsActedOn, act_on_order-IsActedOn}
use cafe_retail_software.Purchasing.Actions.{act_on_order}
use cafe_retail_software.Cafe.{cancel}
use cafe_retail_software.Purchasing.Orders.{purchases-IsSound}
use cafe_retail_software.Cafe.Bills.{WaitsForBill, request_session_bill-All}
use cafe_retail_software.Mongo.Lists.{lists}
use cafe_retail_software.Prelude.Int.{◌+ℤ◌, ◌-ℤ◌, pos}
use cafe_retail_software.Closing.{writable_day}
use cafe_retail_software.Documents.Cafe.{takeaway}
use cafe_retail_software.Tests.World.{
  two, tea_line, words, state_after, desk, start, given, seated, tea_order, served_order, regular,
}
use cafe_retail_software.Purchasing.Receipt.{
  IsConserved, arrived_of, reported, receive_lines-IsConserved,
}
use cafe_retail_software.Security.{managers, owners, sellers, authorized_branch}
use cafe_retail_software.Documents.Purchases.{PurchaseItem}
use cafe_retail_software.Billing.{PaymentInput}
use cafe_retail_software.Replay.{RequestKey}
use cafe_retail_software.Money.{scaled, trimmed_length, decimal}
use cafe_retail_software.Purchasing.Handler.{purchases}
use cafe_retail_software.Purchasing.{PurchaseBody, receive, post}
use cafe_retail_software.Result.{Result, ok, err}
use cafe_retail_software.Purchasing.Lines.{receive_lines, ReceiptInput}
use cafe_retail_software.Cafe.Ordering.{OrderBody}
use cafe_retail_software.Billing.Collect.{receive_payment, AccountPayment}
use cafe_retail_software.Prelude.{List, some, none, ◌∷◌, [], refl, All, ◌≡◌, ◌+◌, false, ℕ, ◌≤◌}
use cafe_retail_software.Cafe.Handling.{OrderChange, act_on_row}
use cafe_retail_software.Cafe.Sessions.{request_session_bill}

abbrev receipt : List ReceiptInput
receipt = (record { raw_id = 1; item_id = 1; quantity_received = two }) ∷ []

abbrev arrival : PurchaseBody
arrival = record { branch_id = none; supplier_id = none; items = []; receipts = receipt }

tea_line-IsConserved : IsConserved tea_line
unfolding scaled
tea_line-IsConserved = record {
  amount = 1000;
  arrived = 0;
  left = 1000;
  reads_ordered = refl;
  reads_received = refl;
  reads_remaining = refl;
  sums_up = refl;
}

act_on_order-IsActedOn_example :
    IsActedOn receive desk tea_order
      (given tea_order (act_on_order lists receive desk arrival tea_order start))
      start.purchase_orders
      (state_after (act_on_order lists receive desk arrival tea_order start)).purchase_orders
unfolding act_on_order managers owners sellers trimmed_length scaled decimal authorized_branch
    writable_day ◌+ℤ◌ ◌-ℤ◌
act_on_order-IsActedOn_example =
    act_on_order-IsActedOn lists receive desk arrival tea_order start refl

abbrev lines_of : Result (List PurchaseItem) → List PurchaseItem
lines_of (ok items) = items
lines_of (err e) = []

receive_lines-IsConserved_example :
    All IsConserved (lines_of (receive_lines [] (tea_line ∷ []) receipt))
    × (arrived_of (lines_of (receive_lines [] (tea_line ∷ []) receipt))
        ≡ arrived_of (tea_line ∷ []) + reported receipt)
unfolding receive_lines managers owners sellers trimmed_length scaled decimal authorized_branch
    writable_day ◌+ℤ◌ ◌-ℤ◌
receive_lines-IsConserved_example =
    receive_lines-IsConserved [] (tea_line ∷ []) receipt refl (tea_line-IsConserved, tt)

purchases-IsSound_example :
    All IsSound
      (state_after
        (purchases lists desk none (some 1) (some receive) post arrival start)).purchase_orders
unfolding purchases act_on_order managers owners sellers trimmed_length scaled decimal
    authorized_branch writable_day ◌+ℤ◌ ◌-ℤ◌
purchases-IsSound_example =
    purchases-IsSound lists desk none (some 1) (some receive) post arrival start refl
      ((tea_line-IsConserved, tt), tt)

abbrev bill_change : OrderChange
bill_change = record { expected_version = some 3; reason = words }

act_on_row-IsHandled_example :
    IsHandled cancel desk bill_change served_order
      (given served_order (act_on_row lists cancel desk bill_change served_order start))
      start.orders
      (state_after (act_on_row lists cancel desk bill_change served_order start)).orders
unfolding act_on_row managers owners sellers trimmed_length scaled decimal authorized_branch
    writable_day ◌+ℤ◌ ◌-ℤ◌
act_on_row-IsHandled_example =
    act_on_row-IsHandled lists cancel desk bill_change served_order start refl

abbrev two_cups : OrderBody
two_cups = record {
  table_session_public_id = none;
  order_type = some takeaway;
  branch_id = some 1;
  items = (record { menu_item_public_id = 90; quantity = some 2; notes = []; other_keys = 0 }) ∷ [];
  customer_notes = [];
}

request_session_bill-All_example :
    All
      (WaitsForBill 1 70)
      (state_after (request_session_bill lists desk seated (some 4) start)).orders
unfolding request_session_bill managers owners sellers trimmed_length scaled decimal
    authorized_branch writable_day ◌+ℤ◌ ◌-ℤ◌
request_session_bill-All_example =
    (request_session_bill-All lists desk seated (some 4) start refl).0

abbrev part_payment : PaymentInput
part_payment = record { amount = two; payment_mode_id = 1; reference_number = [] }

abbrev request : RequestKey
request = record { length = 10; id = 7; hash = 8 }

abbrev cart : List CartEntry
cart =
    (record {
      snapshot = none;
      menu_item_public_id = some 90;
      product_id = none;
      line = record { quantity = two; unit_price = none; discount = none };
    })
    ∷ []

abbrev lines_quoted : Result ((ℕ × ℕ × List InvoiceItem) × Database lists) → List InvoiceItem
lines_quoted (ok r) = r.0.2
lines_quoted (err e) = []

taxes_of-nearest_example : (taxes_of false 1000 500 0).cgst ≡ (taxes_of false 1000 500 0).sgst
taxes_of-nearest_example = (taxes_of-nearest false 1000 500 0).4

abbrev on_account : AccountPayment
on_account = record { branch_id = some 1; payment = part_payment }

receive_payment-IsBalanced_example :
    (amount : ℕ) × (scaled two ≡ ok amount)
    × (1 ≤ amount)
    × (decimal (pos amount) ≡ ok two)
    × IsBalanced 1 1
        (state_after (receive_payment lists desk 20 1 on_account start)).customers
        (state_after (receive_payment lists desk 20 1 on_account start)).ledger
unfolding receive_payment post_ledger managers owners sellers trimmed_length scaled decimal
    authorized_branch ◌+ℤ◌ ◌-ℤ◌ total
receive_payment-IsBalanced_example =
    receive_payment-IsBalanced lists desk 20 1 on_account start refl
      (record { holder = regular; found = refl; opening = 1000; opens = refl; owes = refl })
