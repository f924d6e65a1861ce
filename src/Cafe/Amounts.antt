-- ===== src/Cafe/Amounts.antt =====
-- What a new cafe order costs (cafe.ts, `createOrder`).
use cafe_retail_software.Cafe.Prices.{IsPriced, item_amount}
use cafe_retail_software.Closing.{shut_day}
use cafe_retail_software.Security.{Scope}
use cafe_retail_software.Prelude.Int.{pos}
use cafe_retail_software.Database.{Database}
use cafe_retail_software.Result.{ok}
use cafe_retail_software.Money.{decimal}
use cafe_retail_software.Prelude.{ℕ, ◌≡◌, All, sum_of, length, ◌∷◌, [], ◌++◌, none, find_first}
use cafe_retail_software.Cafe.Ordering.{OrderBody}
use cafe_retail_software.Documents.Cafe.{placed, Order}
use cafe_retail_software.Mongo.{Mongo}

-- What a request for an order has made.
pub record IsOrdered (m : Mongo) (scope : Scope) (today : ℕ) (body : OrderBody) (order : Order)
    (s t : Database m) : Type 0 where
  pub priced : All IsPriced order.items
  pub total_text : decimal (pos (sum_of item_amount order.items)) ≡ ok order.estimated_total
  pub all_lines : length order.items ≡ length body.items
  pub is_new : order.status ≡ placed
  pub added : m.docs t.orders ≡ m.docs s.orders ++ (order ∷ [])
  pub day_open :
      find_first (shut_day m scope.company.id order.branch_id today) (m.docs s.closures) ≡ none
  pub own_company : order.company_id ≡ scope.company.id
