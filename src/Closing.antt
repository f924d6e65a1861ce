-- ===== src/Closing.antt =====
-- apps/web/src/server/closing.ts: a branch's business day is opened, submitted with the counted cash, closed,
-- and reopened. Also `writableDay` of financial.ts, which refuses work on a day that is no longer open.
pub mod Cash
pub mod Steps
pub mod Days
use cafe_retail_software.Prelude.Int.{pos, ◌-ℤ◌}
use cafe_retail_software.Money.{Text, scaled, decimal, trimmed_length}
use cafe_retail_software.Result.{
  Result, Action, throw, ◌>>◌, modify, ok, ◌>>=◌, pure, method_not_allowed, require_value, gets,
  lift, map_ok, ensure, day_closed,
}
use cafe_retail_software.Database.{next_id, Database, required_row, closure_counter}
use cafe_retail_software.Security.{
  Scope, authorized_branch, allow, owners, managers, require_step_up, in_scope, audit,
}
use cafe_retail_software.Documents.{
  DayStatus, InvoicePayment, Closure, ModeType, Branch, CustomerPayment, submitted, opened, cash,
  closed, reopened,
}
use cafe_retail_software.Prelude.{
  ℕ, Bool, true, ◌+◌, ◌==◌, List, Option, false, ◌&&◌, map, if◌then◌else◌, ◌++◌, ◌∷◌, not, [], some,
  is_some, leb, none,
}
use cafe_retail_software.Mongo.{Mongo}
use cafe_retail_software.Result.Pure

-- The clock: the business date (`businessDate()`) and the time in milliseconds.
pub record Clock : Type 0 where
  pub today : ℕ
  pub now : ℕ

pub data DayAction : Type 0 where
  reopen submit close unknown_action : DayAction

pub record DayBody : Type 0 where
  pub branch_id : ℕ
  pub business_date : ℕ
  pub opening_cash : Text
  pub counted_cash : Text
  pub reason : Text

-- `["submitted", "closed"].includes(status)`
unfoldable pub is_shut : DayStatus → Bool
is_shut submitted = true
is_shut closed = true
is_shut _ = false

-- `["open", "reopened"].includes(status)`
pub is_open : DayStatus → Bool
is_open opened = true
is_open reopened = true
is_open _ = false

abbrev pub is_submitted : DayStatus → Bool
is_submitted submitted = true
is_submitted _ = false

-- What the closing reads of a payment, of an invoice or on account.
pub record Collected : Type 0 where
  pub is_credit_marker : Bool
  pub mode_type : ModeType
  pub amount : Text
  pub business_date : ℕ

abbrev pub of_invoice : InvoicePayment → Collected
of_invoice p = record {
  is_credit_marker = p.is_credit_marker;
  mode_type = p.mode_type;
  amount = p.amount;
  business_date = p.business_date;
}

abbrev pub on_account : CustomerPayment → Collected
on_account p = record {
  is_credit_marker = false;
  mode_type = p.mode_type;
  amount = p.amount;
  business_date = p.business_date;
}

abbrev pub is_cash : ModeType → Bool
is_cash cash = true
is_cash _ = false

-- One payment: added to the cash or to the rest, if it was collected on the day.
abbrev pub tally_one : ℕ → ℕ × ℕ → Collected → Result (ℕ × ℕ)
tally_one day (in_cash, rest) p =
    if not p.is_credit_marker && p.business_date == day
    then map_ok (λ n. if is_cash p.mode_type then (in_cash + n, rest) else (in_cash, rest + n))
        (scaled p.amount)
    else ok (in_cash, rest)

pub tally : ℕ → ℕ × ℕ → List Collected → Result (ℕ × ℕ)
tally day sums [] = ok sums
tally day sums (p ∷ ps) = Pure.◌>>=◌ (tally_one day sums p) (λ sums'. tally day sums' ps)

-- The record of a day whose cash was counted.
unfoldable pub submit_record : ℕ → Text → List Collected → Closure → Result Closure
unfolding tally
submit_record user counted_cash payments r =
    Pure.◌>>=◌ (tally r.business_date (0, 0) payments) λ sums.
      Pure.◌>>=◌ (scaled counted_cash) λ counted. Pure.◌>>=◌ (scaled r.opening_cash) λ opening.
        let expected = opening + sums.0 in
        Pure.◌>>=◌ (decimal (pos sums.0)) λ cash_text.
          Pure.◌>>=◌ (decimal (pos sums.1)) λ rest_text.
            Pure.◌>>=◌ (decimal (pos expected)) λ expected_text.
              Pure.◌>>=◌ (decimal (pos counted)) λ counted_text.
                Pure.◌>>=◌ (decimal (pos counted -ℤ pos expected)) λ variance. ok (record r {
                  cash_collections = cash_text;
                  non_cash_total = rest_text;
                  expected_cash = expected_text;
                  counted_cash = some counted_text;
                  variance = some variance;
                  status = submitted;
                  submitted_by = some user;
                })

abbrev pub touch : Branch → Branch
touch b = record b { write_version = b.write_version + 1 }

module _ (m : Mongo) where
  pub open_day : Scope → Clock → ℕ → DayBody → Action (Database m) Closure
  unfolding next_id
  open_day scope clock branch body = do
    require_value (body.business_date == clock.today)
    opening ← lift (scaled body.opening_cash)
    id ← next_id m closure_counter
    text ← lift (decimal (pos opening))
    zero_cash ← lift (decimal (pos 0))
    let r : Closure = record {
      id = id;
      company_id = scope.company.id;
      branch_id = branch;
      business_date = body.business_date;
      opening_cash = text;
      cash_collections = zero_cash;
      non_cash_total = zero_cash;
      expected_cash = text;
      counted_cash = none;
      variance = none;
      status = opened;
      submitted_by = none;
      closed_by = none;
      reopened_by = none;
    }
    modify (λ s. record s { closures = m.insert_one r s.closures })
    pure r

  -- `replaceOne({ id: record.id }, record)`
  abbrev pub replace_day : Closure → Action (Database m) Closure
  replace_day r = do
    modify (λ s. record s { closures = m.update_one (λ c. c.id == r.id) (λ c. r) s.closures })
    pure r

  pub reopen_day : Scope → Clock → DayBody → Closure → Action (Database m) Closure
  unfolding is_shut
  reopen_day scope clock body r = do
    allow scope.user owners
    require_step_up m clock.now scope.user
    require_value (is_shut r.status)
    require_value (leb 3 (trimmed_length body.reason))
    next ← replace_day (record r { status = reopened; reopened_by = some scope.user.id })
    audit m scope r.id
    pure next

  abbrev pub in_branch : ℕ → ℕ → ℕ → ℕ → Bool
  in_branch company branch c b = (c == company) && (b == branch)

  -- The payments of a branch: those of invoices, then those on account.
  pub collected : ℕ → ℕ → Database m → List Collected
  collected company branch s =
      map of_invoice
        (m.find (λ p. in_branch company branch p.company_id p.branch_id) s.invoice_payments)
      ++ map on_account
          (m.find (λ p. in_branch company branch p.company_id p.branch_id) s.customer_payments)

  pub submit_day : Scope → ℕ → DayBody → Closure → Action (Database m) Closure
  unfolding is_open collected
  submit_day scope branch body r = do
    require_value (is_open r.status)
    payments ← gets (collected scope.company.id branch)
    next ← lift (submit_record scope.user.id body.counted_cash payments r)
    replace_day next

  pub close_day : Scope → Closure → Action (Database m) Closure
  close_day scope r = do
    require_value (is_submitted r.status)
    replace_day (record r { status = closed; closed_by = some scope.user.id })

  pub act_on_day : DayAction → Scope → Clock → ℕ → DayBody → Closure → Action (Database m) Closure
  unfolding reopen_day submit_day close_day
  act_on_day reopen scope clock branch body r = reopen_day scope clock body r
  act_on_day submit scope clock branch body r = submit_day scope branch body r
  act_on_day close scope clock branch body r = close_day scope r
  act_on_day unknown_action scope clock branch body r = throw method_not_allowed

  -- The branch document is written first, so that a closing and a checkout of the branch are serialized.
  abbrev pub touch_branch : ℕ → Action (Database m) (Unit {0})
  touch_branch id =
      modify (λ s. record s { branches = m.update_one (λ b. b.id == id) touch s.branches })

  -- The day is found in the scope of the request, or opened where no identifier is given.
  unfoldable pub closing :
      Scope → Clock → DayBody → Option ℕ → DayAction → Action (Database m) Closure
  unfolding open_day act_on_day
  closing scope clock body none action = do
    allow scope.user managers
    branch ← authorized_branch m scope body.branch_id
    touch_branch branch.id
    open_day scope clock branch.id body
  closing scope clock body (some id) action = do
    allow scope.user managers
    r ←
        required_row m (λ c. in_scope scope c.company_id c.branch_id && c.id == id)
          (λ s. s.closures)
    branch ← authorized_branch m scope r.branch_id
    touch_branch branch.id
    act_on_day action scope clock branch.id body r

  abbrev pub shut_day : ℕ → ℕ → ℕ → Closure → Bool
  shut_day company branch day c =
      (c.company_id == company)
      && (c.branch_id == branch)
      && (c.business_date == day)
      && is_shut c.status

  -- financial.ts, `writableDay`: the branch is authorized and touched, and its day is not shut.
  unfoldable pub writable_day : Scope → ℕ → ℕ → Action (Database m) (Unit {0})
  unfolding is_shut
  writable_day scope branch_id day = do
    branch ← authorized_branch m scope branch_id
    modify (λ s. record s {
      branches =
          m.update_one (λ b. (b.id == branch_id) && (b.company_id == scope.company.id)) touch
            s.branches;
    })
    found ← gets (λ s. m.find_one (shut_day scope.company.id branch_id day) s.closures)
    ensure (not (is_some found)) day_closed
