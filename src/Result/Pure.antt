-- ===== src/Result/Pure.antt =====
-- The same sequence of fallible steps where nothing is read or written.
use cafe_retail_software.Prelude.{Bool, true, false, ◌≡◌, arith, refl}
use cafe_retail_software.Result.{Error, Result, ok, err}

-- `if (!test) throw e`
abbrev pub guard : Bool → Error → Result (Unit {0})
guard false e = err e
guard true e = ok tt

infixl 5 ◌>>=◌
abbrev pub ◌>>=◌ : {A B : Type 0} → Result A → (A → Result B) → Result B
err e >>= next = err e
ok a >>= next = next a

infixl 5 ◌>>◌
abbrev pub ◌>>◌ : {B : Type 0} → Result (Unit {0}) → Result B → Result B
step >> rest = step >>= λ done. rest

-- A sequence that returns has returned from its first step, and from the rest.
pub data Ran {A B : Type 0} (m : Result A) (f : A → Result B) (b : B) : Type 0 where
  ran : (a : A) → m ≡ ok a → f a ≡ ok b → Ran m f b

pub >>=-eq-ok :
    {A B : Type 0} (m : Result A) (f : A → Result B) {b : B} → (m >>= f) ≡ ok b → Ran m f b
>>=-eq-ok (ok a) f h = ran a refl h
>>=-eq-ok (err e) f h = ground arith
