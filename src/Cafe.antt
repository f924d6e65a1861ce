-- ===== src/Cafe.antt =====
-- apps/web/src/server/cafe.ts: the rules of a cafe's orders and table sessions. The lists and lookups of GET
-- are not modelled.
pub mod Ordering
pub mod Handling
pub mod Sessions
pub mod Life
pub mod Prices
pub mod Amounts
pub mod Tables
pub mod Bills
pub mod Runs
use cafe_retail_software.Result.{Action, ensure, forbidden, version_conflict}
use cafe_retail_software.Documents.Cafe.{
  SessionStatus, OrderStatus, accepted, ready, placed, served, rejected, cancelled, session_open,
  preparing, bill_requested, closed, session_requested, billed, session_billed,
}
use cafe_retail_software.Documents.{BusinessType, Role, retail, kitchen, cafe}
use cafe_retail_software.Prelude.{ℕ, Bool, Option, true, false, some, opt_eq}
use cafe_retail_software.Security.{managers, sellers, Scope}

-- The actions on an order, as the route names them.
pub data OrderAction : Type 0 where
  accept reject start_preparing mark_ready serve request_bill cancel : OrderAction

abbrev pub is_cafe : BusinessType → Bool
is_cafe retail = false
is_cafe cafe = true

abbrev pub cafe_only : {S : Type 0} → Scope → Action S (Unit {0})
cafe_only scope = ensure (is_cafe scope.company.business_type) forbidden

-- `version`: the request names the version that it changes; what is no number is `none`.
abbrev pub check_version : {S : Type 0} → ℕ → Option ℕ → Action S (Unit {0})
check_version current expected = ensure (opt_eq (some current) expected) version_conflict

-- `transitions`: the statuses an action starts from, and the one it leads to.
pub starts_from : OrderAction → OrderStatus → Bool
starts_from accept placed = true
starts_from reject placed = true
starts_from start_preparing accepted = true
starts_from mark_ready preparing = true
starts_from serve accepted = true
starts_from serve ready = true
starts_from request_bill accepted = true
starts_from request_bill served = true
starts_from cancel placed = true
starts_from cancel accepted = true
starts_from cancel preparing = true
starts_from cancel ready = true
starts_from cancel served = true
starts_from _ _ = false

abbrev pub leads_to : OrderAction → OrderStatus
leads_to accept = accepted
leads_to reject = rejected
leads_to start_preparing = preparing
leads_to mark_ready = ready
leads_to serve = served
leads_to request_bill = bill_requested
leads_to cancel = cancelled

abbrev pub is_kitchen : Role → Bool
is_kitchen kitchen = true
is_kitchen _ = false

-- `[...managers, "kitchen"]`
pub kitchen_roles : Role → Bool
unfolding managers
kitchen_roles kitchen = true
kitchen_roles role = managers role

-- Who may take an action.
pub may_act : OrderAction → Role → Bool
unfolding kitchen_roles sellers
may_act start_preparing role = kitchen_roles role
may_act mark_ready role = kitchen_roles role
may_act _ role = sellers role

-- `["cancel", "reject"]`
abbrev pub ends_order : OrderAction → Bool
ends_order cancel = true
ends_order reject = true
ends_order _ = false

abbrev pub is_cancel : OrderAction → Bool
is_cancel cancel = true
is_cancel _ = false

abbrev pub is_placed : OrderStatus → Bool
is_placed placed = true
is_placed _ = false

-- The status of an item after an action on its order.
abbrev pub item_status : OrderAction → OrderStatus → OrderStatus
item_status accept old = accepted
item_status serve old = served
item_status reject old = rejected
item_status cancel old = cancelled
item_status _ old = old

abbrev pub accepter : OrderAction → ℕ → Option ℕ → Option ℕ
accepter accept user old = some user
accepter _ user old = old

-- `eligible`: the statuses of an order that can be billed.
pub eligible : OrderStatus → Bool
eligible accepted = true
eligible served = true
eligible bill_requested = true
eligible _ = false

-- Not in `["rejected", "cancelled", "closed", "billed"]`.
pub is_unbilled : OrderStatus → Bool
is_unbilled rejected = false
is_unbilled cancelled = false
is_unbilled closed = false
is_unbilled billed = false
is_unbilled _ = true

-- Not in `["cancelled", "rejected", "closed"]`.
pub is_unsettled : OrderStatus → Bool
is_unsettled cancelled = false
is_unsettled rejected = false
is_unsettled closed = false
is_unsettled _ = true

abbrev pub is_session_open : SessionStatus → Bool
is_session_open session_open = true
is_session_open _ = false

-- `["open", "bill_requested", "billed"]`
pub is_closable : SessionStatus → Bool
is_closable session_open = true
is_closable session_requested = true
is_closable session_billed = true
is_closable _ = false
