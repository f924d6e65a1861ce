-- ===== src/Security/Isolation.antt =====
-- What a request's scope guarantees: ventures and branches do not see one another (security.ts).
use cafe_retail_software.Result.{ok, Result-cases}
use cafe_retail_software.Database.{Database}
use cafe_retail_software.Prelude.{
  ℕ, ◌≡◌, true, arith, false, some, Option, inl, inr, none, is_some, ◌⊎◌, Bool-cases,
}
use cafe_retail_software.Documents.{User, Branch, Company}
use cafe_retail_software.Security.{
  scoped, authorized_branch, Scope, Header, is_super_admin, in_scope, active_branch, venture,
  active_company, is_retail, cafe_roles, is_admin, branch_roles, member_active, account_active,
}
use cafe_retail_software.Mongo.{Mongo, find_one-cases}

-- A user who is no owner gets the company of the account, or none.
venture_own :
    (user : User) (header : Header) {id : Option ℕ}
    → venture user header ≡ ok id
    → is_super_admin user.role ≡ false
    → id ≡ user.company_id
unfolding venture
venture_own user header h member = ground arith

module _ (m : Mongo) where
  -- A request that `scoped` lets through works on an active company of the user's business group, and
  -- unless the user is an owner that company is the user's own.
  pub scoped_isolation :
      (user : User) (header : Header) (s : Database m) {scope : Scope} {t : Database m}
      → scoped m user header s ≡ ok (scope, t)
      → (scope.user ≡ user)
        × (scope.company.business_group_id ≡ user.business_group_id)
        × (scope.company.is_active ≡ true)
        × (is_super_admin user.role ≡ false → user.company_id ≡ some scope.company.id)
        × (t ≡ s)
  unfolding scoped
  scoped_isolation user header s {scope = scope} h = elim (Result-cases (venture user header)) [
    | inl (e, failed) ↦ ground arith
    | inr (id, found) ↦ elim (find_one-cases m (active_company m user id) s.companies) [
      | inl missing ↦ ground arith
      | inr (company, one, passes) ↦ ground (arith, venture_own user header found)
    ]
  ]

  -- A branch that is authorized is an active branch of the scope's company, the one that was asked for, and
  -- the user's own branch if the user has one. Nothing is written.
  pub authorized_branch_scope :
      (scope : Scope) (id : ℕ) (s : Database m) {b : Branch} {t : Database m}
      → authorized_branch m scope id s ≡ ok (b, t)
      → (b.id ≡ id)
        × (b.company_id ≡ scope.company.id)
        × (b.is_active ≡ true)
        × (in_scope scope b.company_id b.id ≡ true)
        × (t ≡ s)
  unfolding authorized_branch
  authorized_branch_scope scope id s h =
      elim (find_one-cases m (active_branch m (some id) scope.company.id) s.branches) [
        | inl missing ↦ ground arith
        | inr (branch, one, passes) ↦ ground arith
      ]

  -- What an account that is no owner's needs in order to be active.
  pub record IsMember (user : User) : Type 0 where
    pub company : Company
    pub own : user.company_id ≡ some company.id
    pub same_group : company.business_group_id ≡ user.business_group_id
    pub active : company.is_active ≡ true
    pub no_cafe_role : is_retail company.business_type ≡ true → cafe_roles user.role ≡ false
    pub admin_everywhere : is_admin user.role ≡ true → user.branch_id ≡ none
    pub has_branch : branch_roles user.role ≡ true → is_some user.branch_id ≡ true
    pub branch_exists :
        (b : ℕ)
        → user.branch_id ≡ some b
        → (d : Branch) × (d.id ≡ b) × (d.company_id ≡ company.id) × (d.is_active ≡ true)

  member_active-IsMember :
      (user : User) (s : Database m) {t : Database m}
      → member_active m user s ≡ ok (tt, t)
      → IsMember user
  unfolding member_active
  member_active-IsMember user s h =
      elim (find_one-cases m (active_company m user user.company_id) s.companies) [
        | inl missing ↦ ground arith
        | inr (company, one, passes) ↦
            elim (find_one-cases m (active_branch m user.branch_id company.id) s.branches) [
              | inl no_branch ↦ record {
                company = company;
                own = ground arith;
                same_group = ground arith;
                active = ground arith;
                no_cafe_role = ground arith;
                admin_everywhere = ground arith;
                has_branch = ground arith;
                branch_exists = λ b e. ground arith;
              }
              | inr (branch, two, fits) ↦ record {
                company = company;
                own = ground arith;
                same_group = ground arith;
                active = ground arith;
                no_cafe_role = ground arith;
                admin_everywhere = ground arith;
                has_branch = ground arith;
                branch_exists = λ b e. (branch, ground arith, ground arith, ground arith);
              }
            ]
      ]

  -- An active account is an owner's with no company and no branch, or a member's: the company and the
  -- branch exist, are active and belong together, and the role fits them.
  pub account_active-IsMember :
      (user : User) (s : Database m) {t : Database m}
      → account_active m user s ≡ ok (tt, t)
      → ((is_super_admin user.role ≡ true) × (user.company_id ≡ none) × (user.branch_id ≡ none))
        ⊎ IsMember user
  unfolding account_active
  account_active-IsMember user s {t = t} h = elim (Bool-cases (is_super_admin user.role)) [
    | inl owner ↦ inl (owner, ground arith, ground arith)
    | inr member ↦ inr (member_active-IsMember user s {t = t} (ground arith))
  ]
