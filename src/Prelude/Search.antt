-- ===== src/Prelude/Search.antt =====
-- Searches by a key that no two entries share, and writes to all the entries that a search finds.
use Prim.Native.Nat.{ℕ}
use mathlib.Core.Path.{◌≡◌, refl, sym, subst}
use mathlib.Core.Bool.{Bool, true, false}
use mathlib.Core.List.{List, [], ◌∷◌, map}
use mathlib.Core.Option.{some, some-injective}
use mathlib.Core.Logic.{◌≢◌, inl, inr}
use native.Mathlib.Omega.{arith}
use cafe_retail_software.Prelude.Tests.{◌==◌, Bool-cases}
use cafe_retail_software.Prelude.Lists.{
  All, find_first, find_first-All, find_first-holds, modify_first, modify_all, keep_all, includes,
}

includes_more : (k x : ℕ) (xs : List ℕ) → includes k xs ≡ true → includes k (x ∷ xs) ≡ true
includes_more k x xs h = elim (Bool-cases (x == k)) [ inl t ↦ rw t refl | inr n ↦ rw n h ]

module _ {ℓ} {A : Type ℓ} where
  -- No two entries have the same key.
  abbrev pub Distinct : (A → ℕ) → List A → Type ℓ
  Distinct key [] = Unit
  Distinct key (x ∷ xs) = All (λ y. key y ≢ key x) xs × Distinct key xs

  -- Then a search for the key of what a search found finds the same.
  pub find_first-Distinct :
      (key : A → ℕ) (p : A → Bool) (xs : List A) {a : A}
      → Distinct key xs
      → find_first p xs ≡ some a
      → find_first (λ x. key x == key a) xs ≡ some a
  find_first-Distinct key p [] d e = ground arith
  find_first-Distinct key p (x ∷ xs) {a = a} (far, d) e = elim (Bool-cases (p x)) [
    | inl t ↦
        let own : x ≡ a = some-injective x a (rw t at e) in
        subst (λ b. find_first (λ y. key y == key b) (x ∷ xs) ≡ some b) own (ground arith)
    | inr n ↦
        let there : find_first p xs ≡ some a = rw n at e in
        let other : key a ≢ key x = find_first-All (λ y. key y ≢ key x) p xs far there in
        let rest = find_first-Distinct key p xs d there in ground arith
  ]

  -- A write to the entry that another search finds too.
  pub find_first-modify_first_same :
      (p q : A → Bool) (f : A → A) (xs : List A) (a : A)
      → find_first p xs ≡ some a
      → find_first q xs ≡ some a
      → q (f a) ≡ true
      → find_first q (modify_first p f xs) ≡ some (f a)
  find_first-modify_first_same p q f [] a e k h = ground arith
  find_first-modify_first_same p q f (x ∷ xs) a e k h = elim (Bool-cases (p x)) [
    | inl t ↦ let own : x ≡ a = some-injective x a (rw t at e) in rw (t, own, h) refl
    | inr n ↦
        let there : find_first p xs ≡ some a = rw n at e in
        elim (Bool-cases (q x)) [
          | inl t ↦
              let own : x ≡ a = some-injective x a (rw t at k) in
              let passes : p a ≡ true = find_first-holds p xs there in
              let clash : p x ≡ true = rw own passes in absurd (ground arith)
          | inr m ↦ rw (n, m) (find_first-modify_first_same p q f xs a there (rw m at k) h)
        ]
  ]

  pub All-modify_all_map {κ μ} :
      (P : A → Type κ) (Q : A → Type μ) (p : A → Bool) (f : A → A) (xs : List A)
      → ((x : A) → P x → p x ≡ true → Q (f x))
      → ((x : A) → P x → p x ≡ false → Q x)
      → All P xs
      → All Q (modify_all p f xs)
  All-modify_all_map P Q p f [] hit miss h = tt
  All-modify_all_map P Q p f (x ∷ xs) hit miss (hx, hxs) = elim (Bool-cases (p x)) [
    | inl t ↦ rw t (hit x hx t, All-modify_all_map P Q p f xs hit miss hxs)
    | inr t ↦ rw t (miss x hx t, All-modify_all_map P Q p f xs hit miss hxs)
  ]

  All-weaken {κ μ} :
      (P : A → Type κ) (Q : A → Type μ) (xs : List A) → ((x : A) → P x → Q x) → All P xs → All Q xs
  All-weaken P Q [] w h = tt
  All-weaken P Q (x ∷ xs) w (hx, hxs) = (w x hx, All-weaken P Q xs w hxs)

  -- The keys of what a search keeps include the key of each entry that passes.
  pub keep_all-includes :
      (key : A → ℕ) (q : A → Bool) (xs : List A)
      → All (λ x. q x ≡ true → includes (key x) (map key (keep_all q xs)) ≡ true) xs
  keep_all-includes key q [] = tt
  keep_all-includes key q (x ∷ xs) = elim (Bool-cases (q x)) [
    | inl t ↦
        let kept : keep_all q (x ∷ xs) ≡ x ∷ keep_all q xs = rw t refl in
        subst (λ ys. All (λ y. q y ≡ true → includes (key y) (map key ys) ≡ true) (x ∷ xs))
          (sym kept)
          (
            λ e. ground arith,
            All-weaken (λ y. q y ≡ true → includes (key y) (map key (keep_all q xs)) ≡ true)
                (λ y. q y ≡ true → includes (key y) (key x ∷ map key (keep_all q xs)) ≡ true) xs
                (λ y h e. includes_more (key y) (key x) (map key (keep_all q xs)) (h e))
                (keep_all-includes key q xs),
          )
    | inr n ↦
        let kept : keep_all q (x ∷ xs) ≡ keep_all q xs = rw n refl in
        subst (λ ys. All (λ y. q y ≡ true → includes (key y) (map key ys) ≡ true) (x ∷ xs))
          (sym kept) (λ e. ground arith, keep_all-includes key q xs)
  ]
