-- ===== src/Mongo/Sorted.antt =====
-- A search with a sort order, and the write of the document that it finds.
use cafe_retail_software.Prelude.{
  ℕ, zero, suc, Bool, Option, none, some, List, [], ◌∷◌, if◌then◌else◌,
}

-- A document with its place.
abbrev pub Placed : Type 0 → Type 0
Placed R = ℕ × R

abbrev pub further : {R : Type 0} → Option (Placed R) → Option (Placed R)
further none = none
further (some (i, x)) = some (suc i, x)

-- The earlier of a document and what the rest gives: that one, if it goes before.
abbrev pub earlier : {R : Type 0} → (R → R → Bool) → R → Option (Placed R) → Option (Placed R)
earlier before x none = some (zero, x)
earlier before x (some (i, y)) = if before y x then some (suc i, y) else some (zero, x)

-- The first in the sort order of the documents that pass, with its place.
abbrev pub least_at : {R : Type 0} → (R → Bool) → (R → R → Bool) → List R → Option (Placed R)
least_at p before [] = none
least_at p before (x ∷ xs) =
    let rest = least_at p before xs in if p x then earlier before x rest else further rest

abbrev pub document : {R : Type 0} → Option (Placed R) → Option R
document none = none
document (some (i, x)) = some x

abbrev pub find_least : {R : Type 0} → (R → Bool) → (R → R → Bool) → List R → Option R
find_least p before xs = document (least_at p before xs)

abbrev pub modify_at : {R : Type 0} → ℕ → (R → R) → List R → List R
modify_at i f [] = []
modify_at zero f (x ∷ xs) = f x ∷ xs
modify_at (suc i) f (x ∷ xs) = x ∷ modify_at i f xs

abbrev pub at_place : {R : Type 0} → (R → R) → List R → Option (Placed R) → List R
at_place f xs none = xs
at_place f xs (some (i, x)) = modify_at i f xs

abbrev pub modify_least : {R : Type 0} → (R → Bool) → (R → R → Bool) → (R → R) → List R → List R
modify_least p before f xs = at_place f xs (least_at p before xs)
