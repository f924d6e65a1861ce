-- ===== src/Ledger/Statement.antt =====
-- The statement of a customer (ledger.ts, GET customers/:id/ledger), and the totals of a ledger.
use cafe_retail_software.Ledger.{zero_text}
use cafe_retail_software.Result.{Result, ok}
use cafe_retail_software.Prelude.Int.{ℤ, pos, ◌-ℤ◌, ◌+ℤ◌, int_laws}
use cafe_retail_software.Prelude.{List, Option, ◌≡◌, ◌++◌, ℕ, ◌∷◌, [], or_else, if◌then◌else◌, ◌==◌}
use cafe_retail_software.Documents.{LedgerEntry}
use cafe_retail_software.Money.{Text, scaled, decimal, value}
use cafe_retail_software.Result.Pure.{◌>>=◌}

-- The running balance behind each row, and after the last.
pub running : ℤ → List LedgerEntry → Result (List Text × ℤ)
running balance [] = ok ([], balance)
running balance (row ∷ rows) = do
  debit ← scaled row.debit
  credit ← scaled row.credit
  let next = balance +ℤ (pos debit -ℤ pos credit)
  text ← decimal next
  (texts, last) ← running next rows
  ok (text ∷ texts, last)

-- The opening line, where there is an opening balance, and a line for each row.
unfoldable pub statement : Option Text → List LedgerEntry → Result (List Text × ℤ)
unfolding running
statement opening rows = do
  start ← scaled (or_else opening zero_text)
  first ← decimal (pos start)
  (texts, last) ← running (pos start) rows
  ok (if start == 0 then texts else first ∷ texts, last)

-- The net amount of a row, and the total of rows.
abbrev pub net : LedgerEntry → ℤ
net row = pos (value row.debit) -ℤ pos (value row.credit)

unfoldable pub total : List LedgerEntry → ℤ
total [] = pos 0
total (row ∷ rows) = net row +ℤ total rows

pub total-append : (xs ys : List LedgerEntry) → total (xs ++ ys) ≡ total xs +ℤ total ys
unfolding total
total-append [] ys = omega int_laws
total-append (x ∷ xs) ys = rw (total-append xs ys) (omega int_laws)

pub net_lem :
    (row : LedgerEntry) {d c : ℕ}
    → scaled row.debit ≡ ok d
    → scaled row.credit ≡ ok c
    → net row ≡ pos d -ℤ pos c
net_lem row hd hc = rw (hd, value) (rw (hc, value))
