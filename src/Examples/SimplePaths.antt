-- ===== src/Examples/SimplePaths.antt =====
-- An order book and a search of services/horizon/internal/simplepath, with numbers for assets.
use dfc_api.Base.{
  ℕ, ◌≤◌, ◌≡◌, refl, false, List, [], ◌∷◌, none, some, String, arith, ◌==◌, ==_iff, length, All,
  map, if◌then◌else◌,
}
use dfc_api.Base.Int.{pos}
use dfc_api.SimplePath.Result.{ok}
use dfc_api.SimplePath.OrderBook.{consume}
use dfc_api.SimplePath.OrderBook.Offers.{Row, offer}
use dfc_api.SimplePath.OrderBook.Fills.{book_cost}
use dfc_api.SimplePath.OrderBook.Sound.{Answers, consume-Answers}
use dfc_api.SimplePath.OrderBook.Bought.{Bought, consume-Bought}
use dfc_api.SimplePath.Path.{Assets, Database}
use dfc_api.SimplePath.Search.{Query, max_results, has_more, init, run, find}
use dfc_api.SimplePath.Search.Sound.{IsAnswer}
use dfc_api.SimplePath.Search.Termination.{nodes, IsBranching}
use dfc_api.SimplePath.Search.Find.{find-Answered, run-ends}

-- 10 units at 3/2, then 20 units at 2.
abbrev book : List Row
book = record { amount = 10; n = 3; d = 2 } ∷ record { amount = 20; n = 2; d = 1 } ∷ []

consume-Answers_example : Answers 0 (book_cost book 12) (consume (map offer book) (pos 12) (pos 0))
consume-Answers_example = consume-Answers book 12 0 (omega arith) (omega arith) (omega arith)

consume-Bought_example : Bought 3 2 12 book (consume (map offer book) (pos 12) (pos 0))
consume-Bought_example =
    consume-Bought book 12 3 2 (omega arith) (omega arith) (omega arith)
      (omega arith, (omega arith, tt))

cost_of_twelve : book_cost book 12 ≡ some 19
unfolding book_cost
cost_of_twelve = refl

abbrev name : ℕ → String
name a = if a == 0 then "native" else "other"

instance abbrev numbers : Assets ℕ
numbers = record { equals = ◌==◌; text = name; equals_iff = ==_iff }

abbrev neighbours : ℕ → List ℕ
neighbours a = if a == 1 then 0 ∷ [] else []

-- Asset 1 is sold for asset 0 at the price 1.
abbrev small : Database ℕ
small = record {
  offers =
      λ selling buying. ok (some (record { amount = pos 50; pricen = pos 1; priced = pos 1 }) ∷ []);
  connected = λ a. ok (neighbours a);
  begin = none;
  isolate = none;
}

abbrev ten : Query ℕ
ten = record { destination_asset = 1; destination_amount = pos 10; source_assets = 0 ∷ [] }

find-Answered_example :
    All (IsAnswer small ten 7) (find small 10 ten 0).0
    × (length (find small 10 ten 0).0 ≤ max_results)
find-Answered_example = find-Answered small ten 10 0

small-IsBranching : IsBranching small 1 7
small-IsBranching a l h = ground arith

run-ends_example : has_more (run small 10 (init ten 7)) ≡ false
run-ends_example = run-ends small ten 1 10 0 small-IsBranching (unfold nodes in omega arith)
