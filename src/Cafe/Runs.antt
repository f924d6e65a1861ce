-- ===== src/Cafe/Runs.antt =====
-- How long a cafe order can be acted on, and how it comes to its bill (cafe.ts, `transitions`).
use cafe_retail_software.Result.{ok}
use cafe_retail_software.Database.{Database}
use cafe_retail_software.Cafe.Handling.{act_on_row, OrderChange}
use cafe_retail_software.Prelude.{◌≤◌, ℕ, arith, ◌+◌, ◌≡◌, suc}
use cafe_retail_software.Cafe.Life.{
  OrderStep, accept_placed, reject_placed, act_on_row-IsHandled, prepare_accepted, finish_preparing,
  serve_accepted, serve_ready, bill_accepted, bill_served, cancel_placed, cancel_accepted,
  cancel_preparing, cancel_ready, cancel_served,
}
use cafe_retail_software.Security.{Scope}
use cafe_retail_software.Cafe.{OrderAction}
use cafe_retail_software.Documents.Cafe.{
  OrderStatus, placed, Order, accepted, preparing, ready, served, bill_requested, rejected,
  cancelled, billed, closed,
}
use cafe_retail_software.Mongo.{Mongo}

-- The most actions that an order's status leaves.
abbrev pub steps_left : OrderStatus → ℕ
steps_left placed = 5
steps_left accepted = 4
steps_left preparing = 3
steps_left ready = 2
steps_left served = 1
steps_left _ = 0

steps_left-OrderStep :
    {action : OrderAction} {old new : OrderStatus}
    → OrderStep action old new
    → steps_left new + 1 ≤ steps_left old
steps_left-OrderStep accept_placed = omega arith
steps_left-OrderStep reject_placed = omega arith
steps_left-OrderStep prepare_accepted = omega arith
steps_left-OrderStep finish_preparing = omega arith
steps_left-OrderStep serve_accepted = omega arith
steps_left-OrderStep serve_ready = omega arith
steps_left-OrderStep bill_accepted = omega arith
steps_left-OrderStep bill_served = omega arith
steps_left-OrderStep cancel_placed = omega arith
steps_left-OrderStep cancel_accepted = omega arith
steps_left-OrderStep cancel_preparing = omega arith
steps_left-OrderStep cancel_ready = omega arith
steps_left-OrderStep cancel_served = omega arith

steps_left_bound : (status : OrderStatus) → steps_left status ≤ 5
steps_left_bound placed = omega arith
steps_left_bound accepted = omega arith
steps_left_bound preparing = omega arith
steps_left_bound ready = omega arith
steps_left_bound served = omega arith
steps_left_bound bill_requested = omega arith
steps_left_bound rejected = omega arith
steps_left_bound cancelled = omega arith
steps_left_bound billed = omega arith
steps_left_bound closed = omega arith

module _ (m : Mongo) where
  -- Some actions on an order, one after the other: each finds the order as the one before it left it, and
  -- what happens to the database between two of them is in a relation.
  pub data Acted (between : Database m → Database m → Type 0)
      : ℕ → Order → Database m → Order → Database m → Type 0 where
    stopped : (row : Order) (s : Database m) → Acted between 0 row s row s
    acted :
        {n : ℕ} {row next last : Order} {s t u v : Database m} (action : OrderAction)
        (scope : Scope) (body : OrderChange)
        → act_on_row m action scope body row s ≡ ok (next, t)
        → between t u
        → Acted between n next u last v
        → Acted between (suc n) row s last v

  Acted-shortens :
      (between : Database m → Database m → Type 0) {n : ℕ} {row last : Order} {s v : Database m}
      → Acted between n row s last v
      → (n + steps_left last.status ≤ steps_left row.status) × (last.version ≡ row.version + n)
  Acted-shortens between (stopped row s) = (omega arith, omega arith)
  Acted-shortens between (acted action scope body h other rest) =
      let one = act_on_row-IsHandled m action scope body _ _ h in
      let less = steps_left-OrderStep one.step in
      let (fewer, versions) = Acted-shortens between rest in
      (omega (arith, less, fewer), omega (arith, versions, one.one_version))

  -- No order is acted on more than five times, whatever happens to the rest of the database in between: each
  -- action leaves fewer behind it, and counts the order's version once.
  pub Acted-bound :
      (between : Database m → Database m → Type 0) (n : ℕ) (row last : Order) (s v : Database m)
      → Acted between n row s last v
      → (n ≤ 5)
        × (n + steps_left last.status ≤ steps_left row.status)
        × (last.version ≡ row.version + n)
  Acted-bound between n row last s v run =
      let (fewer, versions) = Acted-shortens between run in
      let five = steps_left_bound row.status in (omega (arith, fewer, five), fewer, versions)

  -- Some actions, with nothing between them, bring the order to its bill.
  abbrev pub ReachesBill : Order → Database m → Type 0
  ReachesBill row s =
      (n : ℕ) × (last : Order) × (v : Database m) × Acted (λ t u. t ≡ u) n row s last v
      × (last.status ≡ bill_requested)
