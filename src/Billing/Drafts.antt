-- ===== src/Billing/Drafts.antt =====
-- apps/web/src/server/financial.ts: an invoice is kept as a draft, and issued later.
use cafe_retail_software.Billing.{invoice_in_scope}
use cafe_retail_software.Result.{Action, ◌>>◌, ◌>>=◌, modify, pure}
use cafe_retail_software.Database.{next_id, Database, invoice_counter, required_row}
use cafe_retail_software.Replay.{RequestKey}
use cafe_retail_software.Money.{print}
use cafe_retail_software.Billing.Sale.{CheckoutBody}
use cafe_retail_software.Billing.Checkout.{checkout}
use cafe_retail_software.Billing.Quote.{quote}
use cafe_retail_software.Security.{sellers, Scope, authorized_branch, allow}
use cafe_retail_software.Billing.Cart.{Quote}
use cafe_retail_software.Billing.Tender.{PaymentsInput, listed, no_payments}
use cafe_retail_software.Prelude.{ℕ, none, ◌∷◌, false, [], or_else, Bool, some}
use cafe_retail_software.Documents.Invoices.{Invoice, QuoteBody, draft, retail_sale}
use cafe_retail_software.Mongo.{Mongo}

-- A checkout's body that is no cart: no branch and no line.
abbrev pub no_cart : QuoteBody
no_cart = record {
  branch_id = 0;
  invoice_day = none;
  odd_date = false;
  invoice_type = none;
  odd_type = false;
  customer_id = none;
  place_of_supply_state_code = none;
  items = [];
}

-- `body.payments ?? []`
abbrev pub paid_with : PaymentsInput → PaymentsInput
paid_with no_payments = listed []
paid_with payments = payments

-- `{ ...draft.draft_payload, payments }`: what only a cafe's counter sends is left out.
abbrev pub draft_body : Invoice → PaymentsInput → CheckoutBody
draft_body row payments = record {
  cart = or_else row.draft_payload no_cart;
  payments = paid_with payments;
  payment_mode_id = 0;
  reference_number = [];
  order_type = none;
}

-- A draft of a quote: nothing is paid, and it is no answer to a request, under a key that is random.
abbrev pub draft_of : ℕ → ℕ → Quote → QuoteBody → ℕ → Invoice
draft_of company fresh quoted body id = record {
  id = id;
  company_id = company;
  branch_id = quoted.branch_id;
  invoice_number = b'D' ∷ b'R' ∷ b'A' ∷ b'F' ∷ b'T' ∷ b'-' ∷ print fresh;
  invoice_type = quoted.invoice_type;
  customer_id = quoted.customer_id;
  status = draft;
  grand_total = quoted.grand_total;
  paid_amount = b'0' ∷ b'.' ∷ b'0' ∷ b'0' ∷ [];
  balance_due = quoted.grand_total;
  items = quoted.items;
  source_type = retail_sale;
  source_id = 0;
  idempotency_key = fresh;
  request_hash = 0;
  draft_payload = some body;
}

module _ (m : Mongo) where
  unfoldable pub create_draft : Scope → ℕ → ℕ → QuoteBody → Action (Database m) Invoice
  unfolding sellers quote authorized_branch next_id
  create_draft scope today fresh body = do
    allow scope.user sellers
    quoted ← quote m scope today false body
    branch ← authorized_branch m scope body.branch_id
    id ← next_id m invoice_counter
    let made : Invoice = draft_of scope.company.id fresh quoted body id
    modify (λ s. record s { invoices = m.insert_one made s.invoices })
    pure made

  -- A draft is issued by a checkout of what it was made from. With the invoice goes what the route drops:
  -- whether it was issued before.
  unfoldable pub issue_draft :
      Scope → ℕ → ℕ → ℕ → RequestKey → PaymentsInput → Action (Database m) (Invoice × Bool)
  unfolding sellers checkout
  issue_draft scope today fresh id key payments = do
    allow scope.user sellers
    row ← required_row m (invoice_in_scope scope id) (λ s. s.invoices)
    checkout m scope
        (record {
          today = today;
          fresh_id = fresh;
          at_cafe = false;
          draft_id = some id;
          source = none;
        })
        key (draft_body row payments)
