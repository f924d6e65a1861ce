-- ===== src/Mongo/Lists.antt =====
-- Collections kept as lists meet the interface: the database of the tests.
use cafe_retail_software.Prelude.{
  List, [], ◌∷◌, ◌++◌, refl, find_first, keep_all, modify_first, modify_all,
}
use cafe_retail_software.Mongo.Sorted.{find_least, modify_least}
use cafe_retail_software.Mongo.{Mongo}

abbrev pub lists : Mongo
lists = record {
  Collection = λ R. List R;
  docs = λ c. c;
  find_one = find_first;
  find = keep_all;
  insert_one = λ r c. c ++ (r ∷ []);
  update_one = modify_first;
  update_many = modify_all;
  find_sorted = find_least;
  update_sorted = modify_least;
  find_one-eq = λ p c. refl;
  find-eq = λ p c. refl;
  docs-insert_one = λ r c. refl;
  docs-update_one = λ p f c. refl;
  docs-update_many = λ p f c. refl;
  find_sorted-eq = λ p before c. refl;
  docs-update_sorted = λ p before f c. refl;
}
