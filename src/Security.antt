-- ===== src/Security.antt =====
-- apps/web/src/server/security.ts: roles, the scope of a request, and which accounts and branches it may use.
pub mod Isolation
use cafe_retail_software.Database.{Database, next_id, audit_counter, count_up}
use cafe_retail_software.Result.{
  Result, Action, ok, err, validation_error, ensure, ◌>>◌, ◌>>=◌, lift, gets, unauthorized,
  forbidden, required, not_found, pure, modify, step_up_required,
}
use cafe_retail_software.Prelude.{
  ℕ, Option, Bool, ◌==◌, true, none, false, if◌then◌else◌, some, opt_eq, ◌&&◌, ◌||◌, not, is_some,
  leb, ◌-◌, ◌*◌, ◌≡◌, refl,
}
use cafe_retail_software.Documents.{
  Role, BusinessType, User, Branch, Company, admin, staff, order_taker, super_admin, unknown_role,
  retail, store_manager, kitchen, cafe, Group,
}
use cafe_retail_software.Mongo.{Mongo}

unfoldable pub managers : Role → Bool
managers admin = true
managers super_admin = true
managers store_manager = true
managers _ = false

unfoldable pub sellers : Role → Bool
unfolding managers
sellers staff = true
sellers order_taker = true
sellers role = managers role

-- `["admin", "super_admin"]`
unfoldable pub owners : Role → Bool
owners admin = true
owners super_admin = true
owners _ = false

-- The roles that work in one branch.
unfoldable pub branch_roles : Role → Bool
branch_roles staff = true
branch_roles store_manager = true
branch_roles order_taker = true
branch_roles kitchen = true
branch_roles _ = false

unfoldable pub cafe_roles : Role → Bool
cafe_roles order_taker = true
cafe_roles kitchen = true
cafe_roles _ = false

unfoldable pub is_super_admin : Role → Bool
is_super_admin super_admin = true
is_super_admin _ = false

unfoldable pub is_admin : Role → Bool
is_admin admin = true
is_admin _ = false

unfoldable pub is_known : Role → Bool
is_known unknown_role = false
is_known _ = true

abbrev pub is_retail : BusinessType → Bool
is_retail retail = true
is_retail cafe = false

pub record Scope : Type 0 where
  pub user : User
  pub company : Company

-- `scope.filter`: the company of the scope, and the branch of a user who has one.
abbrev pub in_scope : Scope → ℕ → ℕ → Bool
in_scope scope company branch =
    (company == scope.company.id)
    && elim scope.user.branch_id [ none ↦ true | some b ↦ branch == b ]

abbrev pub allow : {S : Type 0} → User → (Role → Bool) → Action S (Unit {0})
allow user roles = ensure (roles user.role) forbidden

-- The header x-venture-id: absent or empty, digits, or another text with the number that `Number` reads.
pub data Header : Type 0 where
  absent : Header
  digits : ℕ → Header
  odd : Option ℕ → Header

abbrev header_number : Header → Option ℕ
header_number absent = none
header_number (digits n) = some n
header_number (odd n) = n

abbrev is_absent : Header → Bool
is_absent absent = true
is_absent _ = false

-- The company that a request is for.
pub venture : User → Header → Result (Option ℕ)
venture user header =
    if is_super_admin user.role
    then elim header [ digits n ↦ ok (some n) | _ ↦ err validation_error ]
    else if is_absent header || opt_eq (header_number header) user.company_id
    then ok user.company_id
    else err forbidden

module _ (m : Mongo) where
  abbrev pub active_branch : Option ℕ → ℕ → Branch → Bool
  active_branch id company b = opt_eq (some b.id) id && (b.company_id == company) && b.is_active

  -- An active company of the user's business group.
  abbrev pub active_company : User → Option ℕ → Company → Bool
  active_company user id c =
      opt_eq (some c.id) id && (c.business_group_id == user.business_group_id) && c.is_active

  -- The company and the branch of an account that is not an owner's.
  pub member_active : User → Action (Database m) (Unit {0})
  member_active user = do
    found ← gets (λ s. m.find_one (active_company user user.company_id) s.companies)
    company ← required found unauthorized
    ensure (not (is_admin user.role && is_some user.branch_id)) unauthorized
    ensure (not (is_retail company.business_type && cafe_roles user.role)) unauthorized
    ensure (not (branch_roles user.role && not (is_some user.branch_id))) unauthorized
    branch ← gets (λ s. m.find_one (active_branch user.branch_id company.id) s.branches)
    ensure (not (is_some user.branch_id && not (is_some branch))) unauthorized

  -- An owner belongs to no company and no branch.
  account_scope : Bool → User → Action (Database m) (Unit {0})
  unfolding member_active
  account_scope true user =
      ensure (not (is_some user.company_id || is_some user.branch_id)) unauthorized
  account_scope false user = member_active user

  unfoldable pub account_active : User → Action (Database m) (Unit {0})
  unfolding account_scope
  account_active user = do
    ensure (is_known user.role) unauthorized
    group ←
        gets (λ s.
          m.find_one (λ (g : Group). (g.id == user.business_group_id) && g.is_active) s.groups)
    ensure (is_some group) unauthorized
    account_scope (is_super_admin user.role) user

  unfoldable pub scoped : User → Header → Action (Database m) Scope
  unfolding venture
  scoped user header = do
    id ← lift (venture user header)
    found ← gets (λ s. m.find_one (active_company user id) s.companies)
    company ← required found not_found
    pure (record { user = user; company = company })

  -- billing.ts: an active branch of the company, and the user's own if the user has one.
  unfoldable pub authorized_branch : Scope → ℕ → Action (Database m) Branch
  authorized_branch scope id = do
    found ← gets (λ s. m.find_one (active_branch (some id) scope.company.id) s.branches)
    branch ← required found not_found
    ensure (not (is_some scope.user.branch_id) || opt_eq scope.user.branch_id (some branch.id))
        not_found
    pure branch

  -- query.ts, `audit`: an event of the user, in the scope's company.
  unfoldable pub audit : Scope → ℕ → Action (Database m) (Unit {0})
  unfolding next_id
  audit scope entity_id = do
    id ← next_id m audit_counter
    modify (λ s. record s {
      audit_events =
          m.insert_one
            (record {
              id = id;
              company_id = scope.company.id;
              branch_id = scope.user.branch_id;
              actor_id = scope.user.id;
              entity_id = entity_id;
            })
            s.audit_events;
    })

  -- The database after it.
  abbrev pub audited : Scope → ℕ → Database m → Database m
  audited scope entity_id s = record s {
    audit_events =
        m.insert_one
          (record {
            id = count_up audit_counter s.counters audit_counter;
            company_id = scope.company.id;
            branch_id = scope.user.branch_id;
            actor_id = scope.user.id;
            entity_id = entity_id;
          })
          s.audit_events;
    counters = count_up audit_counter s.counters;
  }

  pub audit_lem :
      (scope : Scope) (entity_id : ℕ) (s : Database m)
      → audit scope entity_id s ≡ ok (tt, audited scope entity_id s)
  unfolding audit
  audit_lem scope entity_id s = refl

  -- accounts.ts, `requireStepUp`: the credentials were entered in the last five minutes.
  abbrev pub require_step_up : ℕ → User → Action (Database m) (Unit {0})
  require_step_up now user =
      ensure (elim user.last_step_up_at [ none ↦ false | some at ↦ leb (now - at) (5 * 60000) ])
        step_up_required
