-- ===== src/Examples/Toids.antt =====
-- IDs of services/horizon/internal/toid at concrete fields.
use dfc_api.Base.{ℕ, ◌<◌, ◌≡◌, refl, some, arith, ◌↔◌, ◌⊎◌}
use dfc_api.Base.Int.{pos, ◌<ℤ◌}
use dfc_api.Toid.{OrderId, new, to_int64, parse, inc_operation_order}
use dfc_api.Toid.Order.{
  position, parse-to_int64, to_int64-parse, to_int64_order, to_int64-inc_operation_order,
}

abbrev seventh : OrderId
seventh = new (pos 7) (pos 3) (pos 2)

seventh-number : to_int64 seventh ≡ some (pos 30064783362)
unfolding to_int64 new
seventh-number = refl

parse-to_int64_example : parse (pos 30064783362) ≡ seventh
unfolding new
parse-to_int64_example = parse-to_int64 seventh (omega arith) (omega arith) seventh-number

to_int64-parse_example : to_int64 (parse (pos 30064783362)) ≡ some (pos 30064783362)
to_int64-parse_example = to_int64-parse 30064783362 (omega arith)

eighth-number : to_int64 (new (pos 8) (pos 0) (pos 1)) ≡ some (pos 34359738369)
unfolding to_int64 new
eighth-number = refl

to_int64_order_example :
    (pos 30064783362 <ℤ pos 34359738369)
    ↔ ((7 < 8) ⊎ (◌≡◌ {A = ℕ} 7 8) × ((3 < 0) ⊎ (◌≡◌ {A = ℕ} 3 0) × (2 < 1)))
to_int64_order_example =
    to_int64_order 7 3 2 8 0 1 (omega arith) (omega arith) seventh-number eighth-number

to_int64-inc_operation_order_example :
    to_int64 (inc_operation_order (new (pos 7) (pos 3) (pos 4095))) ≡ some (pos (position 8 3 0))
to_int64-inc_operation_order_example =
    to_int64-inc_operation_order 7 3 4095 (omega arith) (omega arith)
