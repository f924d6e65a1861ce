-- ===== src/Result.antt =====
-- apps/web/src/server/errors.ts: `HttpError` and `requireValue`, with exceptions as values, and the
-- body of a transaction as a function of the database.
pub mod Pure
pub mod Keeps
use cafe_retail_software.Prelude.{
  ℕ, Bool, true, false, Option, none, some, ◌≡◌, ◌⊎◌, inr, inl, refl, arith,
}

-- The codes that the handlers throw, one for each (status, code).
pub data Error : Type 0 where
  unauthorized : Error
  forbidden : Error
  mfa_required : Error
  step_up_required : Error
  not_found : Error
  method_not_allowed : Error
  invalid_state : Error
  version_conflict : Error
  idempotency_conflict : Error
  day_closed : Error
  insufficient_stock : Error
  not_configured : Error
  scope_integrity : Error
  validation_error : Error
  invalid_decimal : Error

abbrev pub status : Error → ℕ
status unauthorized = 401
status forbidden = 403
status mfa_required = 403
status step_up_required = 403
status not_found = 404
status method_not_allowed = 405
status invalid_state = 409
status version_conflict = 409
status idempotency_conflict = 409
status day_closed = 409
status insufficient_stock = 409
status not_configured = 409
status scope_integrity = 409
status validation_error = 422
status invalid_decimal = 422

pub data Result {ℓ} (A : Type ℓ) : Type ℓ where
  ok : A → Result A
  err : Error → Result A

pub Result-cases {ℓ} :
    {A : Type ℓ} (r : Result A) → ((e : Error) × (r ≡ err e)) ⊎ ((a : A) × (r ≡ ok a))
Result-cases (ok a) = inr (a, refl)
Result-cases (err e) = inl (e, refl)

abbrev pub map_ok {ℓ κ} : {A : Type ℓ} {B : Type κ} → (A → B) → Result A → Result B
map_ok f (ok a) = ok (f a)
map_ok f (err e) = err e

pub ok-injective {ℓ} : {A : Type ℓ} {a b : A} → ok a ≡ ok b → a ≡ b
ok-injective h = cc

-- A transaction's body: it throws, and then nothing is written, or it returns the new database.
abbrev pub Action : Type 0 → Type 0 → Type 0
Action S A = S → Result (A × S)

module _ {S : Type 0} where
  abbrev pub pure : {A : Type 0} → A → Action S A
  pure a s = ok (a, s)

  abbrev pub throw : {A : Type 0} → Error → Action S A
  throw e s = err e

  abbrev pub lift : {A : Type 0} → Result A → Action S A
  lift (ok a) s = ok (a, s)
  lift (err e) s = err e

  abbrev pub gets : {A : Type 0} → (S → A) → Action S A
  gets f s = ok (f s, s)

  abbrev pub modify : (S → S) → Action S (Unit {0})
  modify f s = ok (tt, f s)

  -- `if (!test) throw e`
  abbrev pub ensure : Bool → Error → Action S (Unit {0})
  ensure true e s = ok (tt, s)
  ensure false e s = err e

  -- `requireValue(test)`
  abbrev pub require_value : Bool → Action S (Unit {0})
  require_value b = ensure b validation_error

  -- What must be there: `if (!row) throw e`
  abbrev pub required : {A : Type 0} → Option A → Error → Action S A
  required none e s = err e
  required (some a) e s = ok (a, s)

  infixl 5 ◌>>=◌ ◌>>◌
  abbrev pub ◌>>=◌ : {A B : Type 0} → Action S A → (A → Action S B) → Action S B
  ◌>>=◌ m f s = elim (m s) [ ok (a, s') ↦ f a s' | err e ↦ err e ]

  abbrev pub ◌>>◌ : {B : Type 0} → Action S (Unit {0}) → Action S B → Action S B
  m >> k = m >>= λ _. k

-- A sequence that returns has returned from its first step, and from the rest.
pub data Ran {S A B : Type 0} (m : Action S A) (f : A → Action S B) (s : S) (b : B) (t : S)
    : Type 0 where
  ran : (a : A) (u : S) → m s ≡ ok (a, u) → f a u ≡ ok (b, t) → Ran m f s b t

pub >>=-eq-ok :
    {S A B : Type 0} (m : Action S A) (f : A → Action S B) (s : S) {b : B} {t : S}
    → (m >>= f) s ≡ ok (b, t)
    → Ran m f s b t
>>=-eq-ok m f s h = elim (Result-cases (m s)) [
  | inl (e, failed) ↦ ground arith
  | inr ((a, u), done) ↦ ran a u done (ground arith)
]

-- So has one that begins with a step which writes nothing.
pub data Read {S A B : Type 0} (r : Result A) (f : A → Action S B) (s : S) (b : B) (t : S)
    : Type 0 where
  reads : (a : A) → r ≡ ok a → f a s ≡ ok (b, t) → Read r f s b t

pub lift->>=-eq-ok :
    {S A B : Type 0} (r : Result A) (f : A → Action S B) (s : S) {b : B} {t : S}
    → (lift r >>= f) s ≡ ok (b, t)
    → Read r f s b t
lift->>=-eq-ok (ok a) f s h = reads a refl h
lift->>=-eq-ok (err e) f s h = ground arith

-- The same as tuples, for a `let`.
pub split->>= :
    {S A B : Type 0} (m : Action S A) (f : A → Action S B) (s : S) {b : B} {t : S}
    → (m >>= f) s ≡ ok (b, t)
    → (a : A) × (u : S) × (m s ≡ ok (a, u)) × (f a u ≡ ok (b, t))
split->>= m f s h = elim (>>=-eq-ok m f s h) [ ran a u done rest ↦ (a, u, done, rest) ]

pub split-lift :
    {S A B : Type 0} (r : Result A) (f : A → Action S B) (s : S) {b : B} {t : S}
    → (lift r >>= f) s ≡ ok (b, t)
    → (a : A) × (r ≡ ok a) × (f a s ≡ ok (b, t))
split-lift r f s h = elim (lift->>=-eq-ok r f s h) [ reads a done rest ↦ (a, done, rest) ]

pub ensure->>-eq-ok :
    {S B : Type 0} (test : Bool) (e : Error) (k : Action S B) (s : S) {b : B} {t : S}
    → (ensure test e >> k) s ≡ ok (b, t)
    → (test ≡ true) × (k s ≡ ok (b, t))
ensure->>-eq-ok true e k s h = (refl, h)
ensure->>-eq-ok false e k s h = ground arith
