-- ===== src/Ledger/Balance.antt =====
-- A posting keeps the stored balance of a customer equal to the statement (ledger.ts, `postLedger`).
use cafe_retail_software.Money.Bounds.{amount_limit, value_decimal}
use mathlib.Core.Option.{some-injective}
use cafe_retail_software.Ledger.Statement.{total, total-append, net_lem}
use cafe_retail_software.Result.{ok, lift->>=-eq-ok, reads, >>=-eq-ok, ran, ok-injective}
use cafe_retail_software.Prelude.Int.{ℤ, pos, ◌+ℤ◌, ◌-ℤ◌, int_laws}
use cafe_retail_software.Database.{Database, required_row->>=-eq-ok, found_row}
use cafe_retail_software.Money.{Text, decimal, scaled}
use cafe_retail_software.Security.{Scope}
use cafe_retail_software.Documents.{Customer, LedgerEntry}
use cafe_retail_software.Prelude.{
  ℕ, List, ◌<◌, Bool, keep_all, find_first, ◌≡◌, ◌==◌, ◌&&◌, arith, some, sym, modify_first, ◌∙◌,
  ◌++◌, ◌∷◌, [], or_else, true, find_first-modify_first, find_first-holds, ap,
}
use cafe_retail_software.Ledger.{
  post_ledger, insert_entry, write_balance, Posting, customer_of, set_balance, outstanding,
  zero_text,
}
use cafe_retail_software.Mongo.{Mongo}

abbrev pub of_customer : ℕ → ℕ → LedgerEntry → Bool
of_customer company customer row = (row.customer_id == customer) && (row.company_id == company)

-- The rows of one customer.
abbrev pub rows_of : ℕ → ℕ → List LedgerEntry → List LedgerEntry
rows_of company customer = keep_all (of_customer company customer)

module _ (m : Mongo) where
  -- A posting has written the customer's balance and added one row with its amounts.
  pub record IsPosted (company customer : ℕ) (p : Posting) (s t : Database m) (entry : LedgerEntry)
      : Type 0 where
    pub before : Customer
    pub found : find_first (customer_of company customer) (m.docs s.customers) ≡ some before
    pub old_balance : ℤ
    pub old_owed : outstanding before ≡ ok old_balance
    pub text : Text
    pub available : Text
    pub customers_written :
        m.docs t.customers
        ≡ modify_first
            (customer_of company customer)
            (set_balance (old_balance +ℤ pos p.debit -ℤ pos p.credit) text available)
            (m.docs s.customers)
    pub ledger_added : m.docs t.ledger ≡ m.docs s.ledger ++ (entry ∷ [])
    pub printed : decimal (old_balance +ℤ pos p.debit -ℤ pos p.credit) ≡ ok text
    pub running : entry.running_balance ≡ text
    pub own_customer : entry.customer_id ≡ customer
    pub own_company : entry.company_id ≡ company
    pub debit_printed : decimal (pos p.debit) ≡ ok entry.debit
    pub credit_printed : decimal (pos p.credit) ≡ ok entry.credit

  insert_entry_effect :
      (company customer : ℕ) (p : Posting) (running : Text) (s : Database m) {entry : LedgerEntry}
      {t : Database m}
      → insert_entry m company customer p running s ≡ ok (entry, t)
      → (t.ledger ≡ m.insert_one entry s.ledger)
        × (t.customers ≡ s.customers)
        × (entry.running_balance ≡ running)
        × (entry.customer_id ≡ customer)
        × (entry.company_id ≡ company)
        × (decimal (pos p.debit) ≡ ok entry.debit)
        × (decimal (pos p.credit) ≡ ok entry.credit)
  unfolding insert_entry
  insert_entry_effect company customer p running s h = ground arith

  write_balance_effect :
      (company : ℕ) (current : Customer) (balance : ℤ) (s : Database m) {text : Text}
      {t : Database m}
      → write_balance m company current balance s ≡ ok (text, t)
      → (available : Text) × (t.customers
          ≡ m.update_one
              (customer_of company current.id)
              (set_balance balance text available)
              s.customers)
        × (t.ledger ≡ s.ledger)
        × (decimal balance ≡ ok text)
  unfolding write_balance
  write_balance_effect company current balance s h = elim (lift->>=-eq-ok (decimal balance) _ s h) [
    | reads text' printed h1 ↦
        elim (lift->>=-eq-ok (scaled (or_else current.credit_limit zero_text)) _ s h1) [
          | reads limit hl h2 ↦ elim (lift->>=-eq-ok (decimal (pos limit -ℤ balance)) _ s h2) [
            | reads available ha h3 ↦ (available, ground arith, ground arith, ground arith)
          ]
        ]
  ]

  docs_written :
      (company id customer : ℕ) (f : Customer → Customer) (c c' : m.Collection Customer)
      → id ≡ customer
      → c' ≡ m.update_one (customer_of company id) f c
      → m.docs c' ≡ modify_first (customer_of company customer) f (m.docs c)
  docs_written company id customer f c c' e w =
      rw w (rw e (m.docs-update_one (customer_of company customer) f c))

  pub post_ledger-IsPosted :
      (scope : Scope) (customer : ℕ) (p : Posting) (s : Database m) {entry : LedgerEntry}
      {t : Database m}
      → post_ledger m scope customer p s ≡ ok (entry, t)
      → IsPosted scope.company.id customer p s t entry
  unfolding post_ledger
  post_ledger-IsPosted scope customer p s {t = t} h =
      let company = scope.company.id in
      elim (required_row->>=-eq-ok m (customer_of company customer) (λ s. s.customers) _ s h) [
        | found_row current passes one h1 ↦ elim (lift->>=-eq-ok (outstanding current) _ s h1) [
          | reads balance owes h2 ↦
              elim (>>=-eq-ok
                (write_balance m company current (balance +ℤ pos p.debit -ℤ pos p.credit)) _ s h2) [
                  | ran text u wrote h3 ↦
                      let (available, written, kept, printed) =
                        write_balance_effect company current
                          (balance +ℤ pos p.debit -ℤ pos p.credit) s wrote in
                      let (added, same, running, own, company_too, debits, credits) =
                        insert_entry_effect company customer p text u h3 in
                      let own_id : current.id ≡ customer = ground arith in
                      record {
                        before = current;
                        found = sym (m.find_one-eq _ s.customers) ∙ one;
                        old_balance = balance;
                        old_owed = owes;
                        text = text;
                        available = available;
                        customers_written =
                            docs_written company current.id customer
                              (set_balance (balance +ℤ pos p.debit -ℤ pos p.credit) text available)
                              s.customers t.customers own_id (same ∙ written);
                        ledger_added = rw (added, kept) (m.docs-insert_one _ s.ledger);
                        printed = printed;
                        running = running;
                        own_customer = own;
                        own_company = company_too;
                        debit_printed = debits;
                        credit_printed = credits;
                      }
                ]
        ]
      ]

-- The balance of a customer is what the statement says: the opening balance and the rows' total.
pub record IsBalanced (company customer : ℕ) (customers : List Customer) (rows : List LedgerEntry)
    : Type 0 where
  pub holder : Customer
  pub found : find_first (customer_of company customer) customers ≡ some holder
  pub opening : ℕ
  pub opens : scaled (or_else holder.opening_balance zero_text) ≡ ok opening
  pub owes : outstanding holder ≡ ok (pos opening +ℤ total (rows_of company customer rows))

rows_of-append_own :
    (company customer : ℕ) (rows : List LedgerEntry) (entry : LedgerEntry)
    → of_customer company customer entry ≡ true
    → rows_of company customer (rows ++ (entry ∷ []))
      ≡ rows_of company customer rows ++ (entry ∷ [])
rows_of-append_own company customer [] entry e = rw e
rows_of-append_own company customer (r ∷ rows) entry e =
    ground (arith, rows_of-append_own company customer rows entry e)

total-append_posted :
    (company customer : ℕ) (p : Posting) (rows : List LedgerEntry) (entry : LedgerEntry)
    → p.debit < amount_limit
    → p.credit < amount_limit
    → of_customer company customer entry ≡ true
    → decimal (pos p.debit) ≡ ok entry.debit
    → decimal (pos p.credit) ≡ ok entry.credit
    → total (rows_of company customer (rows ++ (entry ∷ [])))
      ≡ total (rows_of company customer rows) +ℤ (pos p.debit -ℤ pos p.credit)
unfolding total
total-append_posted company customer p rows entry hd hc own pd pc =
    rw (rows_of-append_own company customer rows entry own) (
      rw (total-append (rows_of company customer rows) (entry ∷ [])) (
        rw (net_lem entry (value_decimal p.debit hd pd) (value_decimal p.credit hc pc))
          (omega int_laws)))

module _ (m : Mongo) where
  -- A posting of two amounts below 10 ^ 9 units keeps the customer's stored balance equal to the opening
  -- balance plus all debits less all credits of the customer's rows.
  pub post_ledger-IsBalanced :
      (scope : Scope) (customer : ℕ) (p : Posting) (s : Database m) {entry : LedgerEntry}
      {t : Database m}
      → p.debit < amount_limit
      → p.credit < amount_limit
      → post_ledger m scope customer p s ≡ ok (entry, t)
      → IsBalanced scope.company.id customer (m.docs s.customers) (m.docs s.ledger)
      → IsBalanced scope.company.id customer (m.docs t.customers) (m.docs t.ledger)
  post_ledger-IsBalanced scope customer p s {entry = entry} hd hc h b =
      let company = scope.company.id in
      let posted = post_ledger-IsPosted m scope customer p s h in
      let own = customer_of company customer in
      let f =
        set_balance (posted.old_balance +ℤ pos p.debit -ℤ pos p.credit) posted.text
          posted.available in
      let same : b.holder ≡ posted.before = some-injective _ _ (sym b.found ∙ posted.found) in
      let old : ok posted.old_balance
          ≡ ok (pos b.opening +ℤ total (rows_of company customer (m.docs s.ledger))) =
        sym posted.old_owed ∙ (rw same at b.owes) in
      record {
        holder = f posted.before;
        found = rw posted.customers_written (
            find_first-modify_first own f (m.docs s.customers) posted.before posted.found
              (find_first-holds own (m.docs s.customers) posted.found));
        opening = b.opening;
        opens = rw same at b.opens;
        owes = rw posted.ledger_added (
            rw
              (total-append_posted company customer p (m.docs s.ledger) entry hd hc
                (ground (arith, posted.own_customer, posted.own_company)) posted.debit_printed
                posted.credit_printed)
              (ap ok (rw (ok-injective old) (omega int_laws))));
      }
