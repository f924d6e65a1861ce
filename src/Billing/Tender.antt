-- ===== src/Billing/Tender.antt =====
-- apps/web/src/server/billing.ts, `checkout`: the payments of a request, and what may stay unpaid.
use cafe_retail_software.Ledger.{outstanding, zero_text}
use cafe_retail_software.Result.Pure
use cafe_retail_software.Prelude.Int.{pos, leb_ℤ, ◌+ℤ◌}
use cafe_retail_software.Money.{Text, scaled, trimmed_length, decimal}
use cafe_retail_software.Billing.{PaymentInput, active_mode, is_credit}
use cafe_retail_software.Security.{Scope}
use cafe_retail_software.Documents.{ModeType, Customer, unknown_mode}
use cafe_retail_software.Prelude.{
  List, ℕ, Option, Bool, sum_of, if◌then◌else◌, false, leb, some, true, length, none, ◌∷◌, [], ◌||◌,
  ◌&&◌, not, ltb, ◌-◌, or_else,
}
use cafe_retail_software.Database.{next_id, Database, invoice_payment_counter}
use cafe_retail_software.Result.Pure.{guard}
use cafe_retail_software.Result.{
  Result, Action, ok, err, validation_error, gets, pure, required, require_value, lift, ◌>>=◌, ◌>>◌,
}
use cafe_retail_software.Mongo.{Mongo}

-- `body.payments`: left out, something that is no list, or a list.
pub data PaymentsInput : Type 0 where
  no_payments odd_payments : PaymentsInput
  listed : List PaymentInput → PaymentsInput

-- The payments that count: those of the body, and at a cafe's counter one of the whole total if it has none.
unfoldable pub raw_payments : Bool → PaymentsInput → ℕ → Text → Text → Option (List PaymentInput)
raw_payments cafe_sale (listed inputs) mode reference total = some inputs
raw_payments cafe_sale odd_payments mode reference total = none
raw_payments true no_payments mode reference total =
    some ((record { amount = total; payment_mode_id = mode; reference_number = reference }) ∷ [])
raw_payments false no_payments mode reference total = none

-- Without a customer there must be a payment, and there are ten at most.
unfoldable pub enough_payments : Bool → List PaymentInput → Bool
enough_payments has_customer inputs =
    (leb 1 (length inputs) || has_customer) && leb (length inputs) 10

-- The list of collection modes.
pub is_tender : ModeType → Bool
is_tender unknown_mode = false
is_tender _ = true

-- A payment that was read, with its amount in hundredths.
pub record Tendered : Type 0 where
  pub id : ℕ
  pub mode_type : ModeType
  pub amount : ℕ
  pub text : Text
  pub is_credit_marker : Bool

-- A payment on credit is no collection.
abbrev pub collected_part : Tendered → ℕ
collected_part t = if t.is_credit_marker then 0 else t.amount

-- `paid`
abbrev pub paid_sum : List Tendered → ℕ
paid_sum = sum_of collected_part

module _ (m : Mongo) where
  unfoldable pub tender_one : Scope → Bool → PaymentInput → Action (Database m) Tendered
  unfolding is_tender next_id
  tender_one scope has_customer input = do
    found ←
        gets (λ s. m.find_one (active_mode scope.company.id input.payment_mode_id) s.payment_modes)
    mode ← required found validation_error
    require_value (is_tender mode.mode_type)
    value ← lift (scaled input.amount)
    require_value (leb 1 value)
    require_value (not mode.requires_reference || leb 1 (trimmed_length input.reference_number))
    require_value (not (is_credit mode.mode_type) || has_customer)
    id ← next_id m invoice_payment_counter
    text ← lift (decimal (pos value))
    pure (record {
      id = id;
      mode_type = mode.mode_type;
      amount = value;
      text = text;
      is_credit_marker = is_credit mode.mode_type;
    })

  unfoldable pub tender : Scope → Bool → List PaymentInput → Action (Database m) (List Tendered)
  unfolding tender_one
  tender scope has_customer [] = pure []
  tender scope has_customer (input ∷ inputs) = do
    one ← tender_one scope has_customer input
    rest ← tender scope has_customer inputs
    pure (one ∷ rest)

-- What is left may be owed: by a customer, within the credit limit.
unfoldable pub within_credit : Option Customer → ℕ → Result (Unit {0})
within_credit none due = err validation_error
within_credit (some c) due = Pure.◌>>=◌ (outstanding c) λ owes.
    Pure.◌>>=◌ (scaled (or_else c.credit_limit zero_text))
      λ limit. guard (leb_ℤ (owes +ℤ pos due) (pos limit)) validation_error

-- The payments are not above the total, and what they leave may be owed.
unfoldable pub may_owe : Option Customer → ℕ → ℕ → Result (Unit {0})
unfolding within_credit
may_owe customer amount paid =
    Pure.◌>>=◌ (guard (leb paid amount) validation_error)
      λ fits. if ltb paid amount then within_credit customer (amount - paid) else ok tt
