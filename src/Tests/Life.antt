-- ===== src/Tests/Life.antt =====
-- The life of a cafe order at concrete inputs.
use cafe_retail_software.Cafe.Runs.{stopped, acted}
use cafe_retail_software.Cafe.{cancel}
use cafe_retail_software.Money.{trimmed_length}
use cafe_retail_software.Mongo.Lists.{lists}
use cafe_retail_software.Cafe.Runs.{Acted-bound}
use cafe_retail_software.Prelude.{some, ◌≡◌, ◌+◌, refl}
use cafe_retail_software.Security.{managers, owners, sellers}
use cafe_retail_software.Cafe.Handling.{OrderChange, act_on_row}
use cafe_retail_software.Tests.World.{served_order, start, desk, words, given}

abbrev last_change : OrderChange
last_change = record { expected_version = some 3; reason = words }

Acted-bound_example :
    (given served_order (act_on_row lists cancel desk last_change served_order start)).version
    ≡ 3 + 1
unfolding act_on_row managers owners sellers trimmed_length
Acted-bound_example =
    (Acted-bound lists (λ t u. t ≡ u) 1 served_order _ start _
      (acted cancel desk last_change refl refl (stopped _ _))).2
