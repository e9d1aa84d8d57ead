-- ===== src/SimplePath/OrderBook/Sound.antt =====
-- What the answers of the order book say: the cost is the cost of the offers that are used, and
-- "not enough" is said only of a book that cannot fill the order.
use mathlib.Core.Option
use native.Mathlib.Nat.{mul-le-mul_right, le_of_mul-le-mul_left}
use dfc_api.Base.{
  ℕ, ◌+◌, ◌-◌, ◌*◌, ◌^◌, ◌≤◌, ◌<◌, ◌≡◌, ◌↔◌, refl, List, [], ◌∷◌, Option, none, some, arith, ltb,
  leb, Bool-cases, Option-cases, inl, inr, All, map, min,
}
use dfc_api.Base.Int.{ℤ, pos}
use dfc_api.SimplePath.Result.{Err, Result, ok, err, not_enough, overflow, out_of_int64}
use dfc_api.SimplePath.OrderBook.{consume}
use dfc_api.SimplePath.OrderBook.Rounding.{ceil_div_bounds}
use dfc_api.SimplePath.OrderBook.Offers.{Row, IsRow, offer, bound, price}
use dfc_api.SimplePath.OrderBook.Fills.{book_cost, consume_last, consume_more, consume_fails}

-- An answer of the code is right, given what the book costs without bounds on the numbers.
abbrev pub Answers : ℕ → Option ℕ → Result ℤ → Type 0
Answers acc cost (ok v) = (c : ℕ) × (cost ≡ some c) × (v ≡ pos (acc + c)) × (acc + c < 2 ^ 63)
Answers acc cost (err not_enough) = cost ≡ none
Answers acc cost (err overflow) = (c : ℕ) → cost ≡ some c → 2 ^ 63 ≤ acc + c
Answers acc cost (err out_of_int64) = (c : ℕ) → cost ≡ some c → 2 ^ 63 ≤ acc + c
Answers acc cost (err _) = ⊥

shift :
    (acc p : ℕ) (rest : Option ℕ) (r : Result ℤ)
    → Answers (acc + p) rest r
    → Answers acc (Option.map (λ c. p + c) rest) r
shift acc p none (ok v) h = absurd (grind arith)
shift acc p (some c) (ok v) h = (p + c, refl, ground arith, ground arith)
shift acc p none (err not_enough) h = refl
shift acc p (some c) (err not_enough) h = cc
shift acc p rest (err overflow) h = λ c e. grind arith
shift acc p rest (err out_of_int64) h = λ c e. grind arith
shift acc p rest (err Err.database) h = h
shift acc p rest (err Err.no_source_assets) h = h
shift acc p rest (err Err.invalid_max_length) h = h
shift acc p rest (err Err.panic) h = h

book_cost-last :
    (r : Row) (rows : List Row) (need : ℕ)
    → need ≤ bound r
    → book_cost (r ∷ rows) need ≡ some (price r need)
unfolding book_cost
book_cost-last r rows need h = ground arith

book_cost-more :
    (r : Row) (rows : List Row) (need : ℕ)
    → bound r < need
    → book_cost (r ∷ rows) need
      ≡ Option.map (λ c. price r (bound r) + c) (book_cost rows (need - bound r))
unfolding book_cost
book_cost-more r rows need h = ground arith

-- The sale from the first row is part of the cost.
first_sale :
    (r : Row) (rows : List Row) (need : ℕ) (c : ℕ)
    → book_cost (r ∷ rows) need ≡ some c
    → price r (min (bound r) need) ≤ c
first_sale r rows need c e = elim (Bool-cases (leb need (bound r))) [
  | inl last ↦ ground (arith, book_cost-last r rows need)
  | inr more ↦
      ground (arith, book_cost-more r rows need, Option-cases (book_cost rows (need - bound r)))
]

overflows :
    (r : Row) (rows : List Row) (need acc : ℕ)
    → All IsRow (r ∷ rows)
    → need < 2 ^ 63
    → acc < 2 ^ 63
    → 2 ^ 63 ≤ acc + price r (min (bound r) need)
    → Answers acc (book_cost (r ∷ rows) need) (consume (map offer (r ∷ rows)) (pos need) (pos acc))
overflows r rows need acc v h a big = elim (consume_fails r (map offer rows) need acc v.0 a big) [
  | inl e ↦ rw e (λ c f. omega (arith, first_sale r rows need c f))
  | inr e ↦ rw e (λ c f. omega (arith, first_sale r rows need c f))
]

-- Every answer of the loop is right: it returns the cost of the book, says "not enough" only where
-- the book cannot fill the order, and reports an overflow only where the cost leaves int64.
pub consume-Answers :
    (rows : List Row) (need acc : ℕ)
    → All IsRow rows
    → need < 2 ^ 63
    → acc < 2 ^ 63
    → Answers acc (book_cost rows need) (consume (map offer rows) (pos need) (pos acc))
consume-Answers [] need acc v h a = unfold consume book_cost in refl
consume-Answers (r ∷ rows) need acc v h a =
    elim (Bool-cases (ltb (acc + price r (min (bound r) need)) (2 ^ 63))) [
      | inr big ↦ overflows r rows need acc v h a (ground arith)
      | inl fits ↦ elim (Bool-cases (leb need (bound r))) [
        | inl last ↦
            let small : acc + price r need < 2 ^ 63 = ground arith in
            rw (consume_last r (map offer rows) need acc v.0 h (ground arith) small)
              (price r need, book_cost-last r rows need (ground arith), refl, small)
        | inr more ↦
            let small : acc + price r (bound r) < 2 ^ 63 = ground arith in
            rw
              (
                consume_more r (map offer rows) need acc v.0 h (ground arith) small,
                book_cost-more r rows need (ground arith),
              )
              (shift acc (price r (bound r)) (book_cost rows (need - bound r)) _ (
                consume-Answers rows (need - bound r) (acc + price r (bound r)) v.1 (omega arith)
                  small))
      ]
    ]

-- What the rows can sell in all.
abbrev pub supply : List Row → ℕ
supply [] = 0
supply (r ∷ rows) = bound r + supply rows

-- The book fills an order exactly if its rows can sell as much.
pub book_cost_iff :
    (rows : List Row) (need : ℕ) → 0 < need → (book_cost rows need ≡ none) ↔ (supply rows < need)
unfolding book_cost
book_cost_iff [] need h = ((λ e. h), (λ l. refl))
book_cost_iff (r ∷ rows) need h = elim (Bool-cases (leb need (bound r))) [
  | inl last ↦ rw last ((λ e. cc), (λ l. absurd (ground arith)))
  | inr more ↦
      let (down, up) = book_cost_iff rows (need - bound r) (ground arith) in
      rw more (
        (λ e. let l = down (ground arith) in ground arith),
        (λ l. let e = up (ground arith) in rw e refl),
      )
]

unit_price : (sold n d p q b : ℕ) → 0 < d → p * d ≤ n * q → sold * n ≤ d * b → p * sold ≤ b * q
unit_price sold n d p q b d_pos h covered =
    le_of_mul-le-mul_left {k = d}
      (omega (arith, mul-le-mul_right sold h, mul-le-mul_right q covered)) d_pos

price-ge : (r : Row) (sold p q : ℕ) → IsRow r → p * r.d ≤ r.n * q → p * sold ≤ price r sold * q
price-ge r sold p q v h =
    unit_price sold r.n r.d p q (price r sold) v.d_pos h
      (ceil_div_bounds (sold * r.n) r.d v.d_pos).0

-- Where no row is cheaper than `p / q` the order costs at least that much for each unit.
pub book_cost-ge :
    (rows : List Row) (need c p q : ℕ)
    → All IsRow rows
    → All (λ r. p * r.d ≤ r.n * q) rows
    → book_cost rows need ≡ some c
    → p * need ≤ c * q
unfolding book_cost
book_cost-ge [] need c p q v h e = cc
book_cost-ge (r ∷ rows) need c p q v h e = elim (Bool-cases (leb need (bound r))) [
  | inl last ↦
      let whole : price r need ≡ c = ground arith in rw (← whole) (price-ge r need p q v.0 h.0)
  | inr more ↦ elim (Option-cases (book_cost rows (need - bound r))) [
    | inl none_left ↦ absurd (ground arith)
    | inr (c', rest) ↦
        let whole : price r (bound r) + c' ≡ c = ground arith in
        let split : need ≡ bound r + (need - bound r) = ground arith in
        rw (← whole, split)
          (omega (
            arith,
            price-ge r (bound r) p q v.0 h.0,
            book_cost-ge rows (need - bound r) c' p q v.1 h.1 rest,
          ))
  ]
]
