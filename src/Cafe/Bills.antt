-- ===== src/Cafe/Bills.antt =====
-- What the request of a session's bill does to its orders (cafe.ts, `requestSessionBill`).
use cafe_retail_software.Cafe.Life.{opt_eq-eq}
use mathlib.Core.Path.{subst}
use mathlib.Core.Path.{subst}
use cafe_retail_software.Result.{
  ok, ensure->>-eq-ok, version_conflict, validation_error, ok-injective,
}
use cafe_retail_software.Database.{Database}
use cafe_retail_software.Security.{Scope}
use cafe_retail_software.Cafe.{is_session_open, is_unbilled, eligible}
use cafe_retail_software.Documents.Cafe.{
  SessionStatus, Order, TableSession, bill_requested, session_open, session_requested,
  session_billed, session_closed, session_cancelled,
}
use cafe_retail_software.Prelude.{
  ℕ, List, includes, All, ◌≡◌, true, modify_all, Option, map, false, keep_all, arith, ◌≤◌, ◌==◌,
  length, All-modify_all_map, refl, every, keep_all-includes, some, modify_first, opt_eq, leb, ◌&&◌,
}
use cafe_retail_software.Cafe.Sessions.{
  request_session_bill, orders_of, is_among, request_order, request_session,
}
use cafe_retail_software.Mongo.{Mongo}

-- An order of a session that is not billed waits for the bill.
abbrev pub WaitsForBill : ℕ → ℕ → Order → Type 0
WaitsForBill company session r =
    orders_of company session is_unbilled r ≡ true → r.status ≡ bill_requested

not_among :
    (company session : ℕ) (kept : List Order) (x : Order)
    → includes x.id (map (λ o. o.id) kept) ≡ true
    → is_among kept company x ≡ false
    → orders_of company session is_unbilled x ≡ true
    → x.status ≡ bill_requested
not_among company session kept x h e k =
    let own : (x.company_id == company) ≡ true = ground arith in
    let clash : is_among kept company x ≡ true = rw (h, own) refl in absurd (ground arith)

is_session_open-eq : (old : SessionStatus) → is_session_open old ≡ true → old ≡ session_open
is_session_open-eq session_open h = refl
is_session_open-eq session_requested h = ground arith
is_session_open-eq session_billed h = ground arith
is_session_open-eq session_closed h = ground arith
is_session_open-eq session_cancelled h = ground arith

orders_wait :
    (company session : ℕ) (orders : List Order)
    → All (WaitsForBill company session) (
        modify_all
          (is_among (keep_all (orders_of company session is_unbilled) orders) company)
          request_order
          orders)
orders_wait company session orders =
    let q = orders_of company session is_unbilled in
    let kept = keep_all q orders in
    All-modify_all_map (λ o. q o ≡ true → includes o.id (map (λ o. o.id) kept) ≡ true)
      (WaitsForBill company session) (is_among kept company) request_order orders (λ x h e k. refl)
      (λ x h e k. not_among company session kept x (h k) e k)
      (keep_all-includes (λ o. o.id) q orders)

module _ (m : Mongo) where
  -- The request of a bill that returns has found at least one order of the session that is not billed, and all of
  -- them accepted, served or waiting for the bill already. Afterwards all of them wait for the bill, and the
  -- session too.
  pub request_session_bill-All :
      (scope : Scope) (row : TableSession) (expected : Option ℕ) (s : Database m)
      {next : TableSession} {t : Database m}
      → request_session_bill m scope row expected s ≡ ok (next, t)
      → let q = orders_of scope.company.id row.public_id is_unbilled in
        All (WaitsForBill scope.company.id row.public_id) (m.docs t.orders)
        × (1 ≤ length (keep_all q (m.docs s.orders)))
        × (every (λ o. eligible o.status) (keep_all q (m.docs s.orders)) ≡ true)
        × (expected ≡ some row.version)
        × (row.status ≡ session_open)
        × (next.status ≡ session_requested)
        × (m.docs t.sessions
            ≡ modify_first (λ r. r.id == row.id) request_session (m.docs s.sessions))
  unfolding request_session_bill
  request_session_bill-All scope row expected s h =
      let c = scope.company.id in
      let q = orders_of c row.public_id is_unbilled in
      let (fresh, h1) =
        ensure->>-eq-ok (opt_eq (some row.version) expected) version_conflict _ s h in
      let (is_open, h2) = ensure->>-eq-ok (is_session_open row.status) validation_error _ s h1 in
      let (good, h3) =
        ensure->>-eq-ok
          (leb 1 (length (m.find q s.orders)) && every (λ o. eligible o.status) (m.find q s.orders))
          validation_error _ s h2 in
      let good' = rw (m.find-eq q s.orders) at good in
      subst
        (λ r.
          All (WaitsForBill c row.public_id) (m.docs r.1.orders)
          × (1 ≤ length (keep_all q (m.docs s.orders)))
          × (every (λ o. eligible o.status) (keep_all q (m.docs s.orders)) ≡ true)
          × (expected ≡ some row.version)
          × (row.status ≡ session_open)
          × (r.0.status ≡ session_requested)
          × (m.docs r.1.sessions
              ≡ modify_first (λ r. r.id == row.id) request_session (m.docs s.sessions)))
        (ok-injective h3)
        (
          rw
              (
                m.docs-update_many (is_among (m.find q s.orders) c) request_order s.orders,
                m.find-eq q s.orders,
              )
              (orders_wait c row.public_id (m.docs s.orders)),
          ground arith,
          ground arith,
          opt_eq-eq row.version expected fresh,
          is_session_open-eq row.status is_open,
          refl,
          m.docs-update_one _ _ s.sessions,
        )
