-- ===== src/SimplePath/OrderBook.antt =====
-- services/horizon/internal/simplepath/order_book.go: what it costs to consume an order book.
-- Amounts and prices are int64. math/big is exact, so its numbers are integers.
pub mod Rounding
pub mod Offers
pub mod Fills
pub mod Sound
pub mod Bought
use dfc_api.Base.{
  ℕ, ◌+◌, ◌-◌, ◌/◌, ◌^◌, Bool, ◌||◌, ◌&&◌, not, List, [], ◌∷◌, Option, none, some, if◌then◌else◌,
  ltb, ◌==◌,
}
use dfc_api.Base.Int.{
  ℤ, pos, pos_part, neg_part, sub_ℕ, ◌+ℤ◌, ◌-ℤ◌, ◌*ℤ◌, ltb_ℤ, leb_ℤ, wrap, int64,
}
use dfc_api.SimplePath.Result.{
  Result, ok, err, not_enough, overflow, out_of_int64, database, panic, ◌>>=◌,
}

-- A row of the offers table: the columns amount, pricen and priced.
pub record Offer : Type 0 where
  pub amount : ℤ
  pub pricen : ℤ
  pub priced : ℤ

abbrev pub max_int64 : ℤ
max_int64 = pos (2 ^ 63 - 1)

-- int64 arithmetic wraps.
unfoldable pub wrapped : ℤ → ℤ
wrapped z = int64 (wrap (2 ^ 64) z)

-- x.IsInt64() and x.Int64().
unfoldable pub to_int64_checked : ℤ → Result ℤ
to_int64_checked x =
    if ltb (pos_part x) (2 ^ 63) && leb_ℤ (sub_ℕ 0 (2 ^ 63)) x then ok x else err out_of_int64

-- big.Int.Quo truncates towards zero and panics at a zero divisor.
unfoldable pub quo : ℤ → ℤ → Result ℤ
quo a b =
    let size_a = pos_part a + neg_part a in
    let size_b = pos_part b + neg_part b in
    let same_sign =
      neg_part a == 0 && neg_part b == 0 || not (neg_part a == 0) && not (neg_part b == 0) in
    if size_b == 0
    then err panic
    else ok (if same_sign then pos (size_a / size_b) else sub_ℕ 0 (size_a / size_b))

unfoldable pub mul_fraction_round_down : ℤ → ℤ → ℤ → Result ℤ
unfolding quo to_int64_checked
mul_fraction_round_down x n d = do r ← quo (x *ℤ n) d; to_int64_checked r

unfoldable pub mul_fraction_round_up : ℤ → ℤ → ℤ → Result ℤ
unfolding quo to_int64_checked
mul_fraction_round_up x n d = do r ← quo (x *ℤ n +ℤ d -ℤ pos 1) d; to_int64_checked r

unfoldable pub min : ℤ → ℤ → ℤ
min x y = if leb_ℤ x y then x else y

-- `offerSellingBound`: how much the offer can sell without rounding against the seller.
unfoldable pub selling_bound : ℤ → ℤ → ℤ → Result ℤ
selling_bound amount pricen priced =
    if leb_ℤ pricen priced
    then (do
      down ← mul_fraction_round_down amount pricen priced
      mul_fraction_round_up down priced pricen)
    else ok amount

-- The buying units and the selling units that are taken from an offer.
unfoldable pub convert_to_buying_units : ℤ → ℤ → ℤ → ℤ → Result (ℤ × ℤ)
convert_to_buying_units offer_amount needed pricen priced = do
  bound ← selling_bound offer_amount pricen priced
  let selling = min bound needed
  buying ← mul_fraction_round_up selling pricen priced
  ok (buying, selling)

-- `a > math.MaxInt64 - b`, in int64.
unfoldable pub will_add_overflow : ℤ → ℤ → Bool
will_add_overflow a b = ltb_ℤ (wrapped (max_int64 -ℤ b)) a

-- The loop over the rows. `none` is a row that does not scan.
unfoldable pub consume : List (Option Offer) → ℤ → ℤ → Result ℤ
consume [] remaining buying = err not_enough
consume (none ∷ rows) remaining buying = err database
consume (some o ∷ rows) remaining buying = do
  units ← convert_to_buying_units o.amount remaining o.pricen o.priced
  let buying' = wrapped (buying +ℤ units.0)
  let remaining' = wrapped (remaining -ℤ units.1)
  let rest = consume rows remaining' buying'
  if will_add_overflow buying units.0
      then err overflow
      else if leb_ℤ remaining' (pos 0)
      then ok buying'
      else rest

-- `CostToConsumeLiquidity`, once the query for the rows of the order book has answered.
unfoldable pub cost_to_consume_liquidity : Result (List (Option Offer)) → ℤ → Result ℤ
unfolding consume
cost_to_consume_liquidity rows selling_amount = do
  offers ← rows
  consume offers selling_amount (pos 0)
