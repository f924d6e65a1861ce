-- ===== src/Result/Keeps.antt =====
-- What a step that returns leaves as it was: a part of the state that is read off by a function.
use cafe_retail_software.Prelude.{Bool, true, false, Option, none, some, ◌≡◌, ◌∙◌, arith}
use cafe_retail_software.Result.{
  Error, Result, Action, ok, err, pure, lift, gets, modify, ensure, required, ◌>>=◌, ran, >>=-eq-ok,
}

pub record Keeps {S X A : Type 0} (f : S → X) (step : Action S A) : Type 0 where
  pub kept : (s : S) {a : A} {t : S} → step s ≡ ok (a, t) → f t ≡ f s

module _ {S X : Type 0} (f : S → X) where
  pub Keeps-pure : {A : Type 0} (a : A) → Keeps f (pure a)
  Keeps-pure a = record { kept = λ s h. ground arith }

  pub Keeps-gets : {A : Type 0} (g : S → A) → Keeps f (gets g)
  Keeps-gets g = record { kept = λ s h. ground arith }

  pub Keeps-lift : {A : Type 0} (r : Result A) → Keeps f (lift r)
  Keeps-lift (ok a) = record { kept = λ s h. ground arith }
  Keeps-lift (err e) = record { kept = λ s h. ground arith }

  pub Keeps-ensure : (b : Bool) (e : Error) → Keeps f (ensure b e)
  Keeps-ensure true e = record { kept = λ s h. ground arith }
  Keeps-ensure false e = record { kept = λ s h. ground arith }

  pub Keeps-required : {A : Type 0} (a : Option A) (e : Error) → Keeps f (required a e)
  Keeps-required none e = record { kept = λ s h. ground arith }
  Keeps-required (some a) e = record { kept = λ s h. ground arith }

  pub Keeps-modify : (g : S → S) → ((s : S) → f (g s) ≡ f s) → Keeps f (modify g)
  Keeps-modify g same = record { kept = λ s h. ground (arith, same s) }

  pub Keeps->>= :
      {A B : Type 0} (step : Action S A) (k : A → Action S B)
      → Keeps f step
      → ((a : A) → Keeps f (k a))
      → Keeps f (step >>= k)
  Keeps->>= step k first rest = record {
    kept = λ s h. elim (>>=-eq-ok step k s h) [
      | ran a u done h1 ↦ (rest a).kept u h1 ∙ first.kept s done
    ];
  }

pub ruleset reading = (Keeps->>=, Keeps-pure, Keeps-gets, Keeps-lift, Keeps-ensure, Keeps-required)

-- What every value that a step returns is like.
pub record Yields {S A : Type 0} (P : A → Type 0) (step : Action S A) : Type 0 where
  pub yields : (s : S) {a : A} {t : S} → step s ≡ ok (a, t) → P a

-- A step before it says nothing of what is returned.
pub Yields-skip :
    {S A B : Type 0} (P : B → Type 0) (step : Action S A) (k : A → Action S B)
    → ((a : A) → Yields P (k a))
    → Yields P (step >>= k)
Yields-skip P step k rest = record {
  yields = λ s h. elim (>>=-eq-ok step k s h) [ ran a u done h1 ↦ (rest a).yields u h1 ];
}

-- What is known of a step's value goes into the rest.
pub Yields-step :
    {S A B : Type 0} (Q : A → Type 0) (P : B → Type 0) (step : Action S A) (k : A → Action S B)
    → Yields Q step
    → ((a : A) → Q a → Yields P (k a))
    → Yields P (step >>= k)
Yields-step Q P step k first rest = record {
  yields = λ s h. elim (>>=-eq-ok step k s h) [
    | ran a u done h1 ↦ (rest a (first.yields s done)).yields u h1
  ];
}
