-- ===== src/Ledger.antt =====
-- apps/web/src/server/ledger.ts: what customers owe, the ledger of it, and payments received.
pub mod Balance
pub mod Statement
use cafe_retail_software.Result.{Result, Action, map_ok, ◌>>=◌, lift, ok, ◌>>◌, modify, pure}
use cafe_retail_software.Prelude.Int.{ℤ, pos, ◌+ℤ◌, ◌-ℤ◌}
use cafe_retail_software.Money.{Text, scaled, decimal}
use cafe_retail_software.Database.{next_id, Database, required_row, ledger_counter}
use cafe_retail_software.Documents.{Customer, EntryType, LedgerEntry}
use cafe_retail_software.Prelude.{
  ℕ, Option, ◌∷◌, some, Bool, [], ◌==◌, ◌&&◌, not, is_some, or_else, ◌||◌, none, opt_eq,
}
use cafe_retail_software.Security.{Scope}
use cafe_retail_software.Mongo.{Mongo}

abbrev pub zero_text : Text
zero_text = b'0' ∷ []

-- A customer of the company whom the user's branch may use.
abbrev pub usable_customer : Scope → ℕ → Customer → Bool
usable_customer scope id c =
    (c.company_id == scope.company.id)
    && (c.id == id)
    && c.is_active
    && (not (is_some scope.user.branch_id)
        || not (is_some c.branch_id)
        || opt_eq c.branch_id scope.user.branch_id)

abbrev pub customer_of : ℕ → ℕ → Customer → Bool
customer_of company id c = (c.id == id) && (c.company_id == company)

-- `outstanding_scaled ?? scaled(opening_balance ?? "0")`
abbrev pub owed : Option ℤ → Option Text → Result ℤ
owed none opening = map_ok pos (scaled (or_else opening zero_text))
owed (some balance) opening = ok balance

abbrev pub outstanding : Customer → Result ℤ
outstanding c = owed c.outstanding_scaled c.opening_balance

abbrev pub set_balance : ℤ → Text → Text → Customer → Customer
set_balance balance text available c = record c {
  outstanding_scaled = some balance;
  outstanding_balance = some text;
  available_credit = some available;
}

-- What is posted: a debit and a credit in hundredths, and what they refer to.
pub record Posting : Type 0 where
  pub debit : ℕ
  pub credit : ℕ
  pub entry_type : EntryType
  pub reference_id : ℕ
  pub branch_id : ℕ

module _ (m : Mongo) where
  unfoldable pub scoped_customer : Scope → ℕ → Action (Database m) Customer
  scoped_customer scope id = required_row m (usable_customer scope id) (λ s. s.customers)

  unfoldable pub insert_entry : ℕ → ℕ → Posting → Text → Action (Database m) LedgerEntry
  unfolding next_id
  insert_entry company customer p running = do
    debit ← lift (decimal (pos p.debit))
    credit ← lift (decimal (pos p.credit))
    id ← next_id m ledger_counter
    let entry : LedgerEntry = record {
      id = id;
      company_id = company;
      branch_id = p.branch_id;
      customer_id = customer;
      entry_type = p.entry_type;
      debit = debit;
      credit = credit;
      running_balance = running;
      reference_id = p.reference_id;
    }
    modify (λ s. record s { ledger = m.insert_one entry s.ledger })
    pure entry

  unfoldable pub write_balance : ℕ → Customer → ℤ → Action (Database m) Text
  write_balance company current balance = do
    text ← lift (decimal balance)
    limit ← lift (scaled (or_else current.credit_limit zero_text))
    available ← lift (decimal (pos limit -ℤ balance))
    modify (λ s. record s {
      customers =
          m.update_one (customer_of company current.id) (set_balance balance text available)
            s.customers;
    })
    pure text

  unfoldable pub post_ledger : Scope → ℕ → Posting → Action (Database m) LedgerEntry
  unfolding insert_entry write_balance
  post_ledger scope customer p = do
    current ← required_row m (customer_of scope.company.id customer) (λ s. s.customers)
    before ← lift (outstanding current)
    running ← write_balance scope.company.id current (before +ℤ pos p.debit -ℤ pos p.credit)
    insert_entry scope.company.id customer p running
