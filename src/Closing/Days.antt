-- ===== src/Closing/Days.antt =====
-- The life of a business day, and what a shut day refuses (closing.ts; financial.ts, `writableDay`).
use cafe_retail_software.Closing.Steps.{IsStepped, act_on_day-IsStepped}
use cafe_retail_software.Security.Isolation.{authorized_branch_scope}
use cafe_retail_software.Result.{ok, ensure->>-eq-ok, forbidden, >>=-eq-ok, ran}
use cafe_retail_software.Database.{Database, required_row->>=-eq-ok, found_row}
use cafe_retail_software.Prelude.{
  ◌≡◌, ℕ, true, arith, ◌==◌, ◌∙◌, some, ◌&&◌, find_first, ◌≢◌, find_first_weaken, none, sym,
  Option-cases, find_first-modify_first-some, inl, inr,
}
use cafe_retail_software.Documents.{Closure}
use cafe_retail_software.Security.{Scope, in_scope, managers, authorized_branch}
use cafe_retail_software.Closing.{
  is_shut, DayBody, Clock, closing, DayAction, writable_day, shut_day,
}
use cafe_retail_software.Mongo.{Mongo, find_one-holds}

module _ (m : Mongo) where
  -- An action on a day that returns has taken one step of the day's life on a record of the request's scope:
  -- an open or reopened day is submitted, a submitted one closed, a submitted or closed one reopened. Only that
  -- record is written, its date and opening cash stay, and only an owner or a company's admin reopens.
  pub closing-IsStepped :
      (scope : Scope) (clock : Clock) (body : DayBody) (id : ℕ) (action : DayAction)
      (s : Database m) {r' : Closure} {t : Database m}
      → closing m scope clock body (some id) action s ≡ ok (r', t)
      → (r : Closure) × (m.find_one
            (λ c. in_scope scope c.company_id c.branch_id && c.id == id)
            s.closures
          ≡ some r)
        × IsStepped scope r r' (m.docs s.closures) (m.docs t.closures)
        × (managers scope.user.role ≡ true)
  unfolding closing
  closing-IsStepped scope clock body id action s h =
      let (manager, h1) = ensure->>-eq-ok (managers scope.user.role) forbidden _ s h in
      elim (required_row->>=-eq-ok m _ (λ s. s.closures) _ s h1) [
        | found_row r passes one h2 ↦
            elim (>>=-eq-ok (authorized_branch m scope r.branch_id) _ s h2) [
              | ran branch u authorized h3 ↦
                  let (_, _, _, _, same) =
                    authorized_branch_scope m scope r.branch_id s authorized in
                  (
                    r,
                    one,
                    rw same at (act_on_day-IsStepped m action scope clock branch.id body r _ h3),
                    manager,
                  )
            ]
      ]

  pub writable_day_open :
      (scope : Scope) (branch day : ℕ) (s : Database m) {t : Database m}
      → writable_day m scope branch day s ≡ ok (tt, t)
      → (find_first (shut_day m scope.company.id branch day) (m.docs s.closures) ≡ none)
        × (t.closures ≡ s.closures)
  unfolding writable_day
  writable_day_open scope branch day s h =
      elim (>>=-eq-ok (authorized_branch m scope branch) _ s h) [
        | ran b u authorized h1 ↦
            let (_, _, _, _, same) = authorized_branch_scope m scope branch s authorized in
            elim (Option-cases (m.find_one (shut_day m scope.company.id branch day) u.closures)) [
              | inl none_shut ↦
                  (sym (m.find_one-eq _ s.closures) ∙ (rw same at none_shut), ground arith)
              | inr (c, shut) ↦ ground arith
            ]
      ]

  pub writable_day_keeps :
      (scope : Scope) (branch day : ℕ) (s : Database m) {t : Database m}
      → writable_day m scope branch day s ≡ ok (tt, t)
      → (t.orders ≡ s.orders)
        × (t.tables ≡ s.tables)
        × (t.invoices ≡ s.invoices)
        × (t.invoice_payments ≡ s.invoice_payments)
  unfolding writable_day
  writable_day_keeps scope branch day s h =
      elim (>>=-eq-ok (authorized_branch m scope branch) _ s h) [
        | ran b u authorized h1 ↦
            let (_, _, _, _, same) = authorized_branch_scope m scope branch s authorized in
            elim (Option-cases (m.find_one (shut_day m scope.company.id branch day) u.closures)) [
              | inl none_shut ↦ ground arith
              | inr (c, shut) ↦ ground arith
            ]
      ]

  -- Once the submission or the closing of a day has returned, no operation that asks `writableDay` for the
  -- branch and the day of that record goes on.
  pub closing_shuts :
      (scope : Scope) (clock : Clock) (body : DayBody) (id : ℕ) (action : DayAction)
      (s : Database m) (other : Scope) {r' : Closure} {t u : Database m}
      → closing m scope clock body (some id) action s ≡ ok (r', t)
      → is_shut r'.status ≡ true
      → other.company.id ≡ r'.company_id
      → writable_day m other r'.branch_id r'.business_date t ≢ ok (tt, u)
  closing_shuts scope clock body id action s other {r' = r'} {t = t} h shut same_company h' =
      let (r, one, stepped, _) = closing-IsStepped scope clock body id action s h in
      let (none_shut, _) = writable_day_open other r'.branch_id r'.business_date t h' in
      let own : r.id ≡ id = ground (arith, find_one-holds m _ s.closures one) in
      let (r0, found) =
        find_first_weaken (λ c. in_scope scope c.company_id c.branch_id && c.id == id)
          (λ c. c.id == r.id) (m.docs s.closures) (λ x e. ground arith)
          (sym (m.find_one-eq _ s.closures) ∙ one) in
      let (r1, there) =
        find_first-modify_first-some (shut_day m other.company.id r'.branch_id r'.business_date)
          (λ c. c.id == r.id) (λ c. r') (m.docs s.closures) r0 found (ground arith) in
      let clash : none ≡ some r1 = sym (rw stepped.written at none_shut) ∙ there in ground arith
