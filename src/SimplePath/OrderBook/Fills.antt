-- ===== src/SimplePath/OrderBook/Fills.antt =====
-- The cost of an order book in unbounded arithmetic, and that the int64 code computes it.
use mathlib.Core.Option
use dfc_api.Base.{
  ℕ, ◌+◌, ◌-◌, ◌^◌, ◌≤◌, ◌<◌, ◌≡◌, List, [], ◌∷◌, Option, none, some, arith, ltb, leb,
  if◌then◌else◌, Bool-cases, Option-cases, ◌⊎◌, inl, inr, All, map, min,
}
use dfc_api.Base.Int.{pos}
use dfc_api.SimplePath.Result.{ok, err, overflow, out_of_int64}
use dfc_api.SimplePath.OrderBook.{Offer, consume}
use dfc_api.SimplePath.OrderBook.Offers.{
  Row, IsRow, offer, bound, price, convert_to_buying_units-pos, will_add_overflow-pos, wrapped-add,
  wrapped-sub,
}

-- The cheapest rows first: each is used up, the last one as far as is needed.
unfoldable pub book_cost : List Row → ℕ → Option ℕ
book_cost [] need = none
book_cost (r ∷ rows) need =
    let rest = Option.map (λ c. price r (bound r) + c) (book_cost rows (need - bound r)) in
    if leb need (bound r) then some (price r need) else rest

-- One round of the loop, for a sale that fits int64.
pub consume_last :
    (r : Row) (rows : List (Option Offer)) (need acc : ℕ)
    → IsRow r
    → need < 2 ^ 63
    → need ≤ bound r
    → acc + price r need < 2 ^ 63
    → consume (offer r ∷ rows) (pos need) (pos acc) ≡ ok (pos (acc + price r need))
unfolding consume
consume_last r rows need acc v h l f = ground (
  arith,
  convert_to_buying_units-pos r need v,
  will_add_overflow-pos acc (price r need) (omega arith) (omega arith),
  wrapped-add acc (price r need) f,
  wrapped-sub need need h (omega arith),
)

pub consume_more :
    (r : Row) (rows : List (Option Offer)) (need acc : ℕ)
    → IsRow r
    → need < 2 ^ 63
    → bound r < need
    → acc + price r (bound r) < 2 ^ 63
    → consume (offer r ∷ rows) (pos need) (pos acc)
      ≡ consume rows (pos (need - bound r)) (pos (acc + price r (bound r)))
unfolding consume
consume_more r rows need acc v h l f = ground (
  arith,
  convert_to_buying_units-pos r need v,
  will_add_overflow-pos acc (price r (bound r)) (omega arith) (omega arith),
  wrapped-add acc (price r (bound r)) f,
  wrapped-sub need (bound r) h (omega arith),
)

-- A round whose sum leaves int64 is an error, and not for want of offers.
pub consume_fails :
    (r : Row) (rows : List (Option Offer)) (need acc : ℕ)
    → IsRow r
    → acc < 2 ^ 63
    → 2 ^ 63 ≤ acc + price r (min (bound r) need)
    → (consume (offer r ∷ rows) (pos need) (pos acc) ≡ err overflow)
      ⊎ (consume (offer r ∷ rows) (pos need) (pos acc) ≡ err out_of_int64)
unfolding consume
consume_fails r rows need acc v a f =
    let sold = min (bound r) need in
    elim (Bool-cases (ltb (price r sold) (2 ^ 63))) [
      | inl fits ↦ inl (
          ground (
            arith,
            convert_to_buying_units-pos r need v,
            will_add_overflow-pos acc (price r sold) a (ground arith),
          ))
      | inr big ↦ inr (ground (arith, convert_to_buying_units-pos r need v))
    ]

-- Where the books can fill the order and the cost is an int64, the code returns that cost.
pub consume_fills :
    (rows : List Row) (need acc c : ℕ)
    → All IsRow rows
    → need < 2 ^ 63
    → book_cost rows need ≡ some c
    → acc + c < 2 ^ 63
    → consume (map offer rows) (pos need) (pos acc) ≡ ok (pos (acc + c))
unfolding book_cost
consume_fills [] need acc c v h e f = cc
consume_fills (r ∷ rows) need acc c v h e f = elim (Bool-cases (leb need (bound r))) [
  | inl last ↦
      let whole : price r need ≡ c = ground arith in
      rw (← whole) (consume_last r (map offer rows) need acc v.0 h (ground arith) (omega arith))
  | inr more ↦ elim (Option-cases (book_cost rows (need - bound r))) [
    | inl none_left ↦ absurd (ground arith)
    | inr (c', rest) ↦
        let whole : price r (bound r) + c' ≡ c = ground arith in
        rw (consume_more r (map offer rows) need acc v.0 h (ground arith) (omega arith)) (
          rw
            (consume_fills rows (need - bound r) (acc + price r (bound r)) c' v.1 (omega arith) rest
              (omega arith))
            (ground arith))
  ]
]
