-- ===== src/Mongo.antt =====
-- The database driver (the package mongodb, which is not part of the repository), as an interface: what
-- the server calls, and what it relies on, as MongoDB documents it. A filter is a test on a document, an
-- update a function of it, and the laws relate each call to the documents in their natural order.
pub mod Lists
pub mod Sorted
use cafe_retail_software.Mongo.Sorted.{find_least, modify_least}
use cafe_retail_software.Prelude.{
  ℕ, Bool, Option, List, [], ◌∷◌, ◌++◌, ◌≡◌, refl, find_first, keep_all, modify_first, modify_all,
  some, true, find_first-holds, sym, ◌∙◌, none, ◌⊎◌, Option-cases, inl, inr,
}

pub record Mongo : Type 1 where
  pub Collection : Type 0 → Type 0
  pub docs : {R : Type 0} → Collection R → List R
  pub find_one : {R : Type 0} → (R → Bool) → Collection R → Option R
  pub find : {R : Type 0} → (R → Bool) → Collection R → List R
  pub insert_one : {R : Type 0} → R → Collection R → Collection R
  pub update_one : {R : Type 0} → (R → Bool) → (R → R) → Collection R → Collection R
  pub update_many : {R : Type 0} → (R → Bool) → (R → R) → Collection R → Collection R
  -- findOneAndUpdate with a sort order: the document before the update, and the write.
  pub find_sorted : {R : Type 0} → (R → Bool) → (R → R → Bool) → Collection R → Option R
  pub update_sorted :
      {R : Type 0} → (R → Bool) → (R → R → Bool) → (R → R) → Collection R → Collection R
  -- findOne returns the first document that the filter takes, or null.
  pub find_one-eq :
      {R : Type 0} (p : R → Bool) (c : Collection R) → find_one p c ≡ find_first p (docs c)
  -- find(...).toArray() returns all of them.
  pub find-eq : {R : Type 0} (p : R → Bool) (c : Collection R) → find p c ≡ keep_all p (docs c)
  pub docs-insert_one :
      {R : Type 0} (r : R) (c : Collection R) → docs (insert_one r c) ≡ docs c ++ (r ∷ [])
  -- updateOne writes the first document that the filter takes, updateMany each.
  pub docs-update_one :
      {R : Type 0} (p : R → Bool) (f : R → R) (c : Collection R)
      → docs (update_one p f c) ≡ modify_first p f (docs c)
  pub docs-update_many :
      {R : Type 0} (p : R → Bool) (f : R → R) (c : Collection R)
      → docs (update_many p f c) ≡ modify_all p f (docs c)
  -- findOneAndUpdate takes the first in the sort order.
  pub find_sorted-eq :
      {R : Type 0} (p : R → Bool) (before : R → R → Bool) (c : Collection R)
      → find_sorted p before c ≡ find_least p before (docs c)
  pub docs-update_sorted :
      {R : Type 0} (p : R → Bool) (before : R → R → Bool) (f : R → R) (c : Collection R)
      → docs (update_sorted p before f c) ≡ modify_least p before f (docs c)

-- What findOne returns passes the filter.
pub find_one-holds :
    (m : Mongo) {R : Type 0} (p : R → Bool) (c : m.Collection R) {a : R}
    → m.find_one p c ≡ some a
    → p a ≡ true
find_one-holds m p c e = find_first-holds p (m.docs c) (sym (m.find_one-eq p c) ∙ e)

-- A search finds nothing, or a document that passes the filter.
pub find_one-cases :
    (m : Mongo) {R : Type 0} (p : R → Bool) (c : m.Collection R)
    → (m.find_one p c ≡ none) ⊎ ((a : R) × (m.find_one p c ≡ some a) × (p a ≡ true))
find_one-cases m p c = elim (Option-cases (m.find_one p c)) [
  | inl e ↦ inl e
  | inr (a, e) ↦ inr (a, e, find_one-holds m p c e)
]
