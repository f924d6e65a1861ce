-- ===== src/Closing/Steps.antt =====
-- The steps of a business day (closing.ts).
use mathlib.Core.Path.{subst}
use cafe_retail_software.Closing.Cash.{submit_record-IsCounted, IsCounted}
use cafe_retail_software.Result.{
  ok, ensure->>-eq-ok, validation_error, lift->>=-eq-ok, reads, ok-injective, forbidden, Result,
}
use cafe_retail_software.Database.{Database}
use cafe_retail_software.Prelude.{◌≡◌, ℕ, true, arith, modify_first, ◌==◌, ◌∙◌, some, refl, List}
use cafe_retail_software.Documents.{DayStatus, Closure, opened, submitted, closed, reopened}
use cafe_retail_software.Security.{Scope, owners, audited, audit_lem}
use cafe_retail_software.Closing.{
  is_shut, submit_day, is_open, is_submitted, DayBody, submit_record, collected, close_day,
  reopen_day, Clock, act_on_day, DayAction, reopen, submit, close, unknown_action,
}
use cafe_retail_software.Mongo.{Mongo}

-- The steps of a day's status.
pub data DayStep : DayStatus → DayStatus → Type 0 where
  submit_open : DayStep opened submitted
  submit_again : DayStep reopened submitted
  close_submitted : DayStep submitted closed
  reopen_submitted : DayStep submitted reopened
  reopen_closed : DayStep closed reopened

submit_step : (d : DayStatus) → is_open d ≡ true → DayStep d submitted
unfolding is_open
submit_step opened h = submit_open
submit_step reopened h = submit_again
submit_step submitted h = ground arith
submit_step closed h = ground arith

reopen_step : (d : DayStatus) → is_shut d ≡ true → DayStep d reopened
unfolding is_shut
reopen_step submitted h = reopen_submitted
reopen_step closed h = reopen_closed
reopen_step opened h = ground arith
reopen_step reopened h = ground arith

close_step : (d : DayStatus) → is_submitted d ≡ true → DayStep d closed
close_step submitted h = close_submitted
close_step closed h = ground arith
close_step opened h = ground arith
close_step reopened h = ground arith

-- A day that was acted on: its record alone is written, by a step of its status, and its date, branch and
-- opening cash stay.
pub record IsStepped (scope : Scope) (r r' : Closure) (before after : List Closure) : Type 0 where
  pub step : DayStep r.status r'.status
  pub written : after ≡ modify_first (λ c. c.id == r.id) (λ c. r') before
  pub same_id : r'.id ≡ r.id
  pub same_company : r'.company_id ≡ r.company_id
  pub same_branch : r'.branch_id ≡ r.branch_id
  pub same_day : r'.business_date ≡ r.business_date
  pub same_opening : r'.opening_cash ≡ r.opening_cash
  pub by_owner : r'.status ≡ reopened → owners scope.user.role ≡ true

module _ (m : Mongo) where
  replaced :
      (id : ℕ) (next : Closure) (c : m.Collection Closure)
      → next.id ≡ id
      → m.docs (m.update_one (λ d. d.id == next.id) (λ d. next) c)
        ≡ modify_first (λ d. d.id == id) (λ d. next) (m.docs c)
  replaced id next c e =
      m.docs-update_one (λ d. d.id == next.id) (λ d. next) c
      ∙ (λ i. modify_first (λ d. d.id == e i) (λ d. next) (m.docs c))

  submit_day-IsStepped :
      (scope : Scope) (branch : ℕ) (body : DayBody) (r : Closure) (s : Database m) {r' : Closure}
      {t : Database m}
      → submit_day m scope branch body r s ≡ ok (r', t)
      → IsStepped scope r r' (m.docs s.closures) (m.docs t.closures)
        × IsCounted body.counted_cash (collected m scope.company.id branch s) r r'
  unfolding submit_day
  submit_day-IsStepped scope branch body r s h =
      let (was_open, h1) = ensure->>-eq-ok (is_open r.status) validation_error _ s h in
      elim (lift->>=-eq-ok
        (submit_record scope.user.id body.counted_cash (collected m scope.company.id branch s) r) _
        s h1) [
          | reads next hn h2 ↦
              let counted = submit_record-IsCounted scope.user.id body.counted_cash _ r hn in
              subst
                (λ p.
                  IsStepped scope r p.0 (m.docs s.closures) (m.docs p.1.closures)
                  × IsCounted body.counted_cash (collected m scope.company.id branch s) r p.0)
                (ok-injective h2)
                (
                  record {
                    step = rw counted.now_submitted (submit_step r.status was_open);
                    written = replaced r.id next s.closures counted.same_id;
                    same_id = counted.same_id;
                    same_company = counted.same_company;
                    same_branch = counted.same_branch;
                    same_day = counted.same_day;
                    same_opening = counted.same_opening;
                    by_owner = λ e. ground (arith, counted.now_submitted);
                  },
                  counted,
                )
        ]

  close_day-IsStepped :
      (scope : Scope) (r : Closure) (s : Database m) {r' : Closure} {t : Database m}
      → close_day m scope r s ≡ ok (r', t)
      → IsStepped scope r r' (m.docs s.closures) (m.docs t.closures)
  unfolding close_day
  close_day-IsStepped scope r s h =
      let (was, h1) = ensure->>-eq-ok (is_submitted r.status) validation_error _ s h in
      subst (λ p. IsStepped scope r p.0 (m.docs s.closures) (m.docs p.1.closures)) (ok-injective h1)
        (record {
          step = close_step r.status was;
          written =
              replaced r.id (record r { status = closed; closed_by = some scope.user.id })
                s.closures refl;
          same_id = refl;
          same_company = refl;
          same_branch = refl;
          same_day = refl;
          same_opening = refl;
          by_owner = λ e. ground arith;
        })

  reopen_day-IsStepped :
      (scope : Scope) (clock : Clock) (body : DayBody) (r : Closure) (s : Database m) {r' : Closure}
      {t : Database m}
      → reopen_day m scope clock body r s ≡ ok (r', t)
      → IsStepped scope r r' (m.docs s.closures) (m.docs t.closures)
  unfolding reopen_day
  reopen_day-IsStepped scope clock body r s {r' = r'} {t = t} h =
      let (owner, h1) = ensure->>-eq-ok (owners scope.user.role) forbidden _ s h in
      let was_shut : is_shut r.status ≡ true = ground arith in
      let next : Closure = record r { status = reopened; reopened_by = some scope.user.id } in
      let s' : Database m = record s {
        closures = m.update_one (λ c. c.id == r.id) (λ c. next) s.closures;
      } in
      let done : ◌≡◌ {A = Result (Closure × Database m)} (ok (next, audited m scope r.id s'))
          (ok (r', t)) =
        ground (arith, audit_lem m scope r.id s') in
      subst (λ p. IsStepped scope r p.0 (m.docs s.closures) (m.docs p.1.closures))
        (ok-injective done)
        (record {
          step = reopen_step r.status was_shut;
          written = replaced r.id next s.closures refl;
          same_id = refl;
          same_company = refl;
          same_branch = refl;
          same_day = refl;
          same_opening = refl;
          by_owner = λ e. owner;
        })

  pub act_on_day-IsStepped :
      (action : DayAction) (scope : Scope) (clock : Clock) (branch : ℕ) (body : DayBody)
      (r : Closure) (s : Database m) {r' : Closure} {t : Database m}
      → act_on_day m action scope clock branch body r s ≡ ok (r', t)
      → IsStepped scope r r' (m.docs s.closures) (m.docs t.closures)
  unfolding act_on_day
  act_on_day-IsStepped reopen scope clock branch body r s h =
      reopen_day-IsStepped scope clock body r s h
  act_on_day-IsStepped submit scope clock branch body r s h =
      (submit_day-IsStepped scope branch body r s h).0
  act_on_day-IsStepped close scope clock branch body r s h = close_day-IsStepped scope r s h
  act_on_day-IsStepped unknown_action scope clock branch body r s h = ground arith
