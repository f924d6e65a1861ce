-- ===== src/Prelude/Lists.antt =====
-- Lists measured by native numbers, and the searches and writes that a collection makes.
use Prim.Native.Nat.{ℕ, suc, ◌+◌}
use mathlib.Core.Path.{◌≡◌, refl, sym, subst}
use mathlib.Core.Bool.{Bool, true, false, ◌&&◌, ◌||◌}
use mathlib.Core.List.{List, [], ◌∷◌, ◌++◌}
use mathlib.Core.Option.{Option, none, some, some-injective}
use mathlib.Core.Logic.{inl, inr}
use native.Mathlib.Omega.{arith}
use cafe_retail_software.Prelude.Tests.{◌==◌, if◌then◌else◌, Bool-cases}

module _ {ℓ} {A : Type ℓ} where
  abbrev pub length : List A → ℕ
  length [] = 0
  length (x ∷ xs) = suc (length xs)

  pub length-append : (xs ys : List A) → length (xs ++ ys) ≡ length xs + length ys
  length-append [] ys = omega arith
  length-append (x ∷ xs) ys = omega (arith, length-append xs ys)

  abbrev pub All {κ} : (A → Type κ) → List A → Type κ
  All P [] = Unit
  All P (x ∷ xs) = P x × All P xs

  pub All-append {κ} : (P : A → Type κ) (xs ys : List A) → All P xs → All P ys → All P (xs ++ ys)
  All-append P [] ys hx hy = hy
  All-append P (x ∷ xs) ys hx hy = (hx.0, All-append P xs ys hx.1 hy)

  -- `xs.every(p)` and `xs.some(p)`
  abbrev pub every : (A → Bool) → List A → Bool
  every p [] = true
  every p (x ∷ xs) = p x && every p xs

  abbrev pub any : (A → Bool) → List A → Bool
  any p [] = false
  any p (x ∷ xs) = p x || any p xs

  abbrev pub find_first : (A → Bool) → List A → Option A
  find_first p [] = none
  find_first p (x ∷ xs) = if p x then some x else find_first p xs

  abbrev pub keep_all : (A → Bool) → List A → List A
  keep_all p [] = []
  keep_all p (x ∷ xs) = let rest = keep_all p xs in if p x then x ∷ rest else rest

  abbrev pub modify_first : (A → Bool) → (A → A) → List A → List A
  modify_first p f [] = []
  modify_first p f (x ∷ xs) = if p x then f x ∷ xs else x ∷ modify_first p f xs

  abbrev pub modify_all : (A → Bool) → (A → A) → List A → List A
  modify_all p f [] = []
  modify_all p f (x ∷ xs) = (if p x then f x else x) ∷ modify_all p f xs

-- `xs.includes(k)`
abbrev pub includes : ℕ → List ℕ → Bool
includes k = any (λ x. x == k)

-- The sum of a number read off each entry.
abbrev pub sum_of {ℓ} : {A : Type ℓ} → (A → ℕ) → List A → ℕ
sum_of f [] = 0
sum_of f (x ∷ xs) = f x + sum_of f xs

module _ {ℓ} {A : Type ℓ} where
  pub sum_of-append : (f : A → ℕ) (xs ys : List A) → sum_of f (xs ++ ys) ≡ sum_of f xs + sum_of f ys
  sum_of-append f [] ys = omega arith
  sum_of-append f (x ∷ xs) ys = omega (arith, sum_of-append f xs ys)

  -- What a search finds passes the test, and has what every entry has.
  pub find_first-holds :
      (p : A → Bool) (xs : List A) {a : A} → find_first p xs ≡ some a → p a ≡ true
  find_first-holds p [] h = ground arith
  find_first-holds p (x ∷ xs) {a} h = ground (arith, find_first-holds p xs {a = a})

  pub find_first-All {κ} :
      (P : A → Type κ) (p : A → Bool) (xs : List A) {a : A}
      → All P xs
      → find_first p xs ≡ some a
      → P a
  find_first-All P p [] h e = ground arith
  find_first-All P p (x ∷ xs) (hx, hxs) e = elim (Bool-cases (p x)) [
    | inl t ↦ subst P (some-injective _ _ (rw t at e)) hx
    | inr t ↦ find_first-All P p xs hxs (rw t at e)
  ]

  pub find_first-append_none :
      (p : A → Bool) (xs ys : List A)
      → find_first p xs ≡ none
      → find_first p (xs ++ ys) ≡ find_first p ys
  find_first-append_none p [] ys e = refl
  find_first-append_none p (x ∷ xs) ys e = ground (arith, find_first-append_none p xs ys)

  pub find_first-append_other :
      (p : A → Bool) (xs : List A) (y : A)
      → p y ≡ false
      → find_first p (xs ++ (y ∷ [])) ≡ find_first p xs
  find_first-append_other p [] y e = rw e
  find_first-append_other p (x ∷ xs) y e = ground (arith, find_first-append_other p xs y e)

  -- A write to the entry that the search finds.
  pub All-modify_first {κ} :
      (P : A → Type κ) (p : A → Bool) (f : A → A) (xs : List A) (r : A)
      → find_first p xs ≡ some r
      → P (f r)
      → All P xs
      → All P (modify_first p f xs)
  All-modify_first P p f [] r e new h = tt
  All-modify_first P p f (x ∷ xs) r e new (hx, hxs) = elim (Bool-cases (p x)) [
    | inl t ↦ rw t (subst (λ y. P (f y)) (sym (some-injective x r (rw t at e))) new, hxs)
    | inr t ↦ rw t (hx, All-modify_first P p f xs r (rw t at e) new hxs)
  ]

  pub modify_first-none :
      (p : A → Bool) (f : A → A) (xs : List A) → find_first p xs ≡ none → modify_first p f xs ≡ xs
  modify_first-none p f [] e = refl
  modify_first-none p f (x ∷ xs) e = ground (arith, modify_first-none p f xs)

  pub modify_first-append_none :
      (p : A → Bool) (f : A → A) (xs ys : List A)
      → find_first p xs ≡ none
      → modify_first p f (xs ++ ys) ≡ xs ++ modify_first p f ys
  modify_first-append_none p f [] ys e = refl
  modify_first-append_none p f (x ∷ xs) ys e = ground (arith, modify_first-append_none p f xs ys)

  pub find_first-modify_first :
      (p : A → Bool) (f : A → A) (xs : List A) (r : A)
      → find_first p xs ≡ some r
      → p (f r) ≡ true
      → find_first p (modify_first p f xs) ≡ some (f r)
  find_first-modify_first p f [] r e k = ground arith
  find_first-modify_first p f (x ∷ xs) r e k = ground (arith, find_first-modify_first p f xs r)

  -- A search that the written entry does not concern finds what it found.
  pub find_first-modify_first_other :
      (p q : A → Bool) (f : A → A) (xs : List A)
      → ((x : A) → p x ≡ true → (q x ≡ false) × (q (f x) ≡ false))
      → find_first q (modify_first p f xs) ≡ find_first q xs
  find_first-modify_first_other p q f [] h = refl
  find_first-modify_first_other p q f (x ∷ xs) h =
      ground (arith, h x, find_first-modify_first_other p q f xs h)

  pub sum_of-modify_first :
      (g : A → ℕ) (p : A → Bool) (f : A → A) (xs : List A) (r : A)
      → find_first p xs ≡ some r
      → sum_of g (modify_first p f xs) + g r ≡ sum_of g xs + g (f r)
  sum_of-modify_first g p f [] r e = ground arith
  sum_of-modify_first g p f (x ∷ xs) r e = ground (arith, sum_of-modify_first g p f xs r)

  pub length-modify_first :
      (p : A → Bool) (f : A → A) (xs : List A) → length (modify_first p f xs) ≡ length xs
  length-modify_first p f [] = refl
  length-modify_first p f (x ∷ xs) = ground (arith, length-modify_first p f xs)

  pub All-modify_all {κ} :
      (P : A → Type κ) (p : A → Bool) (f : A → A) (xs : List A)
      → ((x : A) → P x → p x ≡ true → P (f x))
      → All P xs
      → All P (modify_all p f xs)
  All-modify_all P p f [] k h = tt
  All-modify_all P p f (x ∷ xs) k (hx, hxs) = elim (Bool-cases (p x)) [
    | inl t ↦ rw t (k x hx t, All-modify_all P p f xs k hxs)
    | inr t ↦ rw t (hx, All-modify_all P p f xs k hxs)
  ]

  -- A weaker search finds something too.
  pub find_first_weaken :
      (p q : A → Bool) (xs : List A) {r : A}
      → ((x : A) → p x ≡ true → q x ≡ true)
      → find_first p xs ≡ some r
      → (r' : A) × (find_first q xs ≡ some r')
  find_first_weaken p q [] w e = ground arith
  find_first_weaken p q (x ∷ xs) {r = r} w e = elim (Bool-cases (q x)) [
    | inl t ↦ (x, rw t)
    | inr f ↦
        let (r', found) = find_first_weaken p q xs {r = r} w (ground (arith, w x)) in
        (r', rw f found)
  ]

  -- After a write that makes an entry pass, a search finds something.
  pub find_first-modify_first-some :
      (p q : A → Bool) (f : A → A) (xs : List A) (r : A)
      → find_first q xs ≡ some r
      → p (f r) ≡ true
      → (r' : A) × (find_first p (modify_first q f xs) ≡ some r')
  find_first-modify_first-some p q f [] r e k = ground arith
  find_first-modify_first-some p q f (x ∷ xs) r e k = elim (Bool-cases (q x)) [
    | inl t ↦ let own : x ≡ r = ground arith in (f x, ground arith)
    | inr n ↦ elim (Bool-cases (p x)) [
      | inl y ↦ (x, rw n (rw y))
      | inr z ↦
          let (r', found) = find_first-modify_first-some p q f xs r (ground arith) k in
          (r', rw n (rw z found))
    ]
  ]

  -- A write of one value, wherever it goes.
  pub All-modify_first_value {κ} :
      (P : A → Type κ) (p : A → Bool) (a : A) (xs : List A)
      → P a
      → All P xs
      → All P (modify_first p (λ x. a) xs)
  All-modify_first_value P p a [] new h = tt
  All-modify_first_value P p a (x ∷ xs) new (hx, hxs) = elim (Bool-cases (p x)) [
    | inl t ↦ rw t (new, hxs)
    | inr t ↦ rw t (hx, All-modify_first_value P p a xs new hxs)
  ]
