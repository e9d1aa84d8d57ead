-- ===== src/SimplePath/OrderBook/Offers.antt =====
-- One offer of the book, and one round of the loop, without overflow.
use dfc_api.Base.{
  ℕ, ◌+◌, ◌-◌, ◌*◌, ◌^◌, ◌≤◌, ◌<◌, ◌≡◌, Option, some, arith, ltb, leb, if◌then◌else◌, min,
}
use dfc_api.Base.Int.{pos, ◌+ℤ◌, ◌-ℤ◌}
use dfc_api.SimplePath.Result.{ok, err, out_of_int64}
use dfc_api.SimplePath.OrderBook
use dfc_api.SimplePath.OrderBook.{
  Offer, convert_to_buying_units, selling_bound, will_add_overflow, wrapped, consume, max_int64,
}
use dfc_api.SimplePath.OrderBook.Rounding.{
  ceil_div, sellable, selling_bound-pos, mul_fraction_round_up-pos,
}

-- An offer with its numbers as the database has them: not negative, and with a real price.
pub record Row : Type 0 where
  pub amount : ℕ
  pub n : ℕ
  pub d : ℕ

pub record IsRow (r : Row) : Type 0 where
  pub amount_int64 : r.amount < 2 ^ 63
  pub n_pos : 0 < r.n
  pub d_pos : 0 < r.d

abbrev pub offer : Row → Option Offer
offer r = some (record { amount = pos r.amount; pricen = pos r.n; priced = pos r.d })

abbrev pub bound : Row → ℕ
bound r = sellable r.amount r.n r.d

-- What `sold` units of the offer cost, rounded up.
abbrev pub price : Row → ℕ → ℕ
price r sold = ceil_div (sold * r.n) r.d

min-pos : (a b : ℕ) → OrderBook.min (pos a) (pos b) ≡ pos (min a b)
unfolding OrderBook.min
min-pos a b = ground arith

pub convert_to_buying_units-pos :
    (r : Row) (need : ℕ)
    → IsRow r
    → convert_to_buying_units (pos r.amount) (pos need) (pos r.n) (pos r.d) ≡ (
        let sold = min (bound r) need in
        if ltb (price r sold) (2 ^ 63) then ok (pos (price r sold), pos sold) else err out_of_int64)
unfolding convert_to_buying_units
convert_to_buying_units-pos r need v =
    rw
      (
        selling_bound-pos r.amount r.n r.d v.amount_int64 v.n_pos v.d_pos,
        min-pos (bound r) need,
        mul_fraction_round_up-pos (min (bound r) need) r.n r.d v.d_pos,
      )
      (ground arith)

pub will_add_overflow-pos :
    (a b : ℕ) → a < 2 ^ 63 → b < 2 ^ 63 → will_add_overflow (pos a) (pos b) ≡ leb (2 ^ 63) (a + b)
unfolding will_add_overflow wrapped ◌-ℤ◌
will_add_overflow-pos a b h k = ground arith

pub wrapped-add : (a b : ℕ) → a + b < 2 ^ 63 → wrapped (pos a +ℤ pos b) ≡ pos (a + b)
unfolding wrapped ◌+ℤ◌
wrapped-add a b h = ground arith

pub wrapped-sub : (a b : ℕ) → a < 2 ^ 63 → b ≤ a → wrapped (pos a -ℤ pos b) ≡ pos (a - b)
unfolding wrapped ◌-ℤ◌
wrapped-sub a b h k = ground arith
