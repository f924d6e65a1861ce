-- ===== src/Cafe/Tables.antt =====
-- What table sessions promise (cafe.ts): one session at a table, and no order forgotten.
use cafe_retail_software.Database.{Database}
use cafe_retail_software.Cafe.Sessions.{active_table, occupy}
use cafe_retail_software.Prelude.{ℕ, ◌≡◌, find_first, Option, some, ◌==◌, none, modify_first}
use cafe_retail_software.Security.{Scope}
use cafe_retail_software.Documents.Cafe.{CafeTable, TableSession}
use cafe_retail_software.Mongo.{Mongo}

-- What the opening of a session has written.
record IsOpened (m : Mongo) (scope : Scope) (table_id public_id : ℕ) (row : TableSession)
    (s t : Database m) : Type 0 where
  table : CafeTable
  found : find_first (active_table scope table_id) (m.docs s.tables) ≡ some table
  was_free : table.active_session_public_id ≡ none
  tables_written :
      m.docs t.tables ≡ modify_first (λ r. r.id == table.id) (occupy public_id) (m.docs s.tables)
  of_session : row.public_id ≡ public_id
