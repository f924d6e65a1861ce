-- ===== src/Tests/Till.antt =====
-- A sale at the counter of the small cafe: two cups for a regular guest, who pays a part.
use cafe_retail_software.Billing.Drafted.{issue_draft_once}
use cafe_retail_software.Security.{Scope}
use cafe_retail_software.Billing.Drafts.{create_draft, issue_draft}
use cafe_retail_software.Billing.Requested.{Requests, requested}
use cafe_retail_software.Billing.Numbers.{next_number}
use cafe_retail_software.Ledger.Statement.{total}
use cafe_retail_software.Billing.Asked.{line_part, asked, requested-sum_of}
use cafe_retail_software.Billing.Again.{checkout_again}
use cafe_retail_software.Billing.Owed.{checkout-Owes}
use cafe_retail_software.Consistency.Sales.{checkout_agrees}
use cafe_retail_software.Consistency.{lines_agree}
use cafe_retail_software.Ledger.Balance.{IsBalanced}
use cafe_retail_software.Billing.Taken.{stock_total}
use cafe_retail_software.Closing.{is_shut}
use cafe_retail_software.Prelude.Int.{◌-ℤ◌, ◌+ℤ◌, pos}
use cafe_retail_software.Billing.Tender.{listed, PaymentsInput}
use cafe_retail_software.Billing.Sold.{checkout_stock}
use cafe_retail_software.Tests.World.{given, start, regular, two, bill, desk, state_after}
use cafe_retail_software.Database.{Database}
use cafe_retail_software.Documents.{Customer, retail}
use cafe_retail_software.Money.{Text, scaled, multiply, decimal, trimmed_length}
use cafe_retail_software.Documents.Invoices.{Profile, Invoice, Sequence, non_gst, QuoteBody}
use cafe_retail_software.Replay.{RequestKey}
use cafe_retail_software.Billing.Checkout.{checkout}
use cafe_retail_software.Billing.Sale.{Occasion, CheckoutBody}
use cafe_retail_software.Mongo.Lists.{lists}
use cafe_retail_software.Prelude.{
  none, some, true, false, refl, ◌≡◌, ◌∷◌, Bool, [], sum_of, Distinct, ℕ, arith,
}
use cafe_retail_software.Result.{ok, Result, err, validation_error}

abbrev trusted : Customer
trusted = record regular { credit_limit = some (b'1' ∷ b'0' ∷ b'0' ∷ []) }

abbrev venture_profile : Profile
venture_profile = record {
  company_id = 1;
  default_tax_mode = non_gst;
  gst_effective_from = none;
  has_gstin = false;
  state_code = none;
}

abbrev all_numbers : Sequence
all_numbers = record {
  id = 1;
  company_id = 1;
  branch_id = none;
  is_active = true;
  invoice_type = non_gst;
  prefix = b'C' ∷ b'-' ∷ [];
  suffix = none;
  padding = some 4;
  next_number = 41;
}

abbrev till : Database lists
till = record start {
  customers = trusted ∷ [];
  profiles = venture_profile ∷ [];
  sequences = all_numbers ∷ [];
}

abbrev one_unit : Text
one_unit = b'1' ∷ []

abbrev two_cups : CheckoutBody
two_cups = record {
  cart = record {
    branch_id = 1;
    invoice_day = none;
    odd_date = false;
    invoice_type = none;
    odd_type = false;
    customer_id = some 1;
    place_of_supply_state_code = none;
    items =
        (record {
          menu_item_public_id = some 90;
          product_id = none;
          line = record { quantity = two; unit_price = none; discount = none };
          snapshot = none;
        })
        ∷ [];
  };
  payments =
      listed ((record { amount = one_unit; payment_mode_id = 1; reference_number = [] }) ∷ []);
  payment_mode_id = 0;
  reference_number = [];
  order_type = none;
}

abbrev at_counter : Occasion
at_counter = record { today = 20; fresh_id = 500; at_cafe = true; draft_id = none; source = none }

abbrev request : RequestKey
request = record { length = 12; id = 900; hash = 33 }

abbrev sold : Result ((Invoice × Bool) × Database lists)
sold = checkout lists desk at_counter request two_cups till

abbrev sold_invoice : Invoice
sold_invoice = (given (bill, true) sold).0

number_of_sale : sold_invoice.invoice_number ≡ b'C' ∷ b'-' ∷ b'0' ∷ b'0' ∷ b'4' ∷ b'1' ∷ []
unfolding checkout scaled multiply decimal ◌-ℤ◌ ◌+ℤ◌ is_shut trimmed_length
number_of_sale = refl

checkout_stock_example :
    stock_total 1 1 1 (state_after sold).inventory
    ≡ stock_total 1 1 1 till.inventory -ℤ pos (sum_of (line_part 1) sold_invoice.items)
unfolding checkout scaled multiply decimal ◌-ℤ◌ ◌+ℤ◌ is_shut trimmed_length
checkout_stock_example = (checkout_stock lists desk at_counter request two_cups till refl).0 1

checkout_again_example :
    checkout lists desk at_counter request two_cups (state_after sold)
    ≡ ok ((sold_invoice, true), state_after sold)
unfolding checkout scaled multiply decimal ◌-ℤ◌ ◌+ℤ◌ is_shut trimmed_length
checkout_again_example =
    (checkout_again lists desk desk at_counter at_counter request request two_cups two_cups till
        refl refl refl refl refl refl refl).0
      refl

checkout-Owes_example : IsBalanced 1 1 (state_after sold).customers (state_after sold).ledger
unfolding checkout scaled multiply decimal ◌-ℤ◌ ◌+ℤ◌ is_shut trimmed_length total
checkout-Owes_example =
    (checkout-Owes lists desk at_counter request two_cups 1 (pos 1000) till refl refl
        (trusted, refl, refl)).5
      (record { holder = trusted; found = refl; opening = 1000; opens = refl; owes = refl })

checkout_agrees_example : lines_agree sold_invoice ≡ ok true
unfolding checkout scaled multiply decimal ◌-ℤ◌ ◌+ℤ◌ is_shut trimmed_length
checkout_agrees_example = (checkout_agrees lists desk at_counter request two_cups till refl tt).0

abbrev requests_in : Result Requests → Requests
requests_in (ok requests) = requests
requests_in (err e) = []

abbrev cup_requests : Requests
cup_requests = requests_in (requested sold_invoice.items)

requested-sum_of_example :
    Distinct (λ r. r.0) cup_requests
    × ((product : ℕ) → asked product cup_requests ≡ sum_of (line_part product) sold_invoice.items)
unfolding checkout scaled multiply decimal ◌-ℤ◌ ◌+ℤ◌ is_shut trimmed_length
requested-sum_of_example = requested-sum_of sold_invoice.items refl

abbrev numbered : Result (Text × Database lists)
numbered = next_number lists 1 1 non_gst till

abbrev numbered_next : Result (Text × Database lists)
numbered_next = next_number lists 1 1 non_gst (state_after numbered)

-- The draft of a shop, issued in full.
abbrev shop_desk : Scope
shop_desk = record desk { company = record desk.company { business_type = retail } }

abbrev shop_cart : QuoteBody
shop_cart = record {
  branch_id = 1;
  invoice_day = none;
  odd_date = false;
  invoice_type = none;
  odd_type = false;
  customer_id = none;
  place_of_supply_state_code = none;
  items =
      (record {
        menu_item_public_id = none;
        product_id = some 1;
        line = record { quantity = two; unit_price = none; discount = none };
        snapshot = none;
      })
      ∷ [];
}

abbrev drafted : Result (Invoice × Database lists)
drafted = create_draft lists shop_desk 20 700 shop_cart till

abbrev in_full : PaymentsInput
in_full =
    listed ((record { amount = b'2' ∷ b'0' ∷ []; payment_mode_id = 1; reference_number = [] }) ∷ [])

abbrev other_request : RequestKey
other_request = record request { id = 901 }

abbrev issued_draft : Result ((Invoice × Bool) × Database lists)
issued_draft = issue_draft lists shop_desk 20 701 11 request in_full (state_after drafted)

issue_draft_once_example :
    issue_draft lists shop_desk 21 702 11 other_request in_full (state_after issued_draft)
    ≡ err validation_error
unfolding issue_draft create_draft scaled multiply decimal ◌-ℤ◌ ◌+ℤ◌ is_shut trimmed_length
issue_draft_once_example =
    (issue_draft_once lists shop_desk 20 701 11 request in_full (state_after drafted) 21 702
      other_request in_full ((λ e. ground arith, tt), (tt, tt)) refl refl refl).6
