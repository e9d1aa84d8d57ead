-- ===== src/SimplePath/OrderBook/Bought.antt =====
-- What an order pays, and which orders a book cannot fill.
use dfc_api.Base.{
  ℕ, ◌*◌, ◌^◌, ◌≤◌, ◌<◌, ◌≡◌, ◌∙◌, ap, List, some, arith, ltb, Bool-cases, inl, inr, All, map,
  ltb→lt,
}
use dfc_api.Base.Int.{ℤ, pos}
use dfc_api.SimplePath.Result.{Err, Result, ok, err, not_enough, overflow, out_of_int64}
use dfc_api.SimplePath.OrderBook.{consume}
use dfc_api.SimplePath.OrderBook.Offers.{Row, IsRow, offer}
use dfc_api.SimplePath.OrderBook.Fills.{book_cost}
use dfc_api.SimplePath.OrderBook.Sound.{
  Answers, consume-Answers, supply, book_cost_iff, book_cost-ge,
}

-- A cost is paid for a book that has as much, at `p / q` for each unit or more. "Not enough" is said
-- of a book that has less. The other errors are those of numbers that leave int64.
abbrev pub Bought : ℕ → ℕ → ℕ → List Row → Result ℤ → Type 0
Bought p q need rows (ok v) = (c : ℕ) × (v ≡ pos c) × (need ≤ supply rows) × (p * need ≤ c * q)
Bought p q need rows (err not_enough) = supply rows < need
Bought p q need rows (err overflow) = Unit
Bought p q need rows (err out_of_int64) = Unit
Bought p q need rows (err _) = ⊥

supplied :
    (rows : List Row) (need c : ℕ) → 0 < need → book_cost rows need ≡ some c → need ≤ supply rows
supplied rows need c h e = elim (Bool-cases (ltb (supply rows) need)) [
  | inl less ↦ absurd cc (e, (book_cost_iff rows need h).1 (ltb→lt (supply rows) need less))
  | inr fine ↦ ground arith
]

module _ (rows : List Row) (need p q : ℕ) (some_need : 0 < need) (v : All IsRow rows)
    (dear : All (λ r. p * r.d ≤ r.n * q) rows) where
  Answers-Bought : (r : Result ℤ) → Answers 0 (book_cost rows need) r → Bought p q need rows r
  Answers-Bought (ok w) (c, e, same, fits) = (
    c,
    same ∙ ap pos (omega arith),
    supplied rows need c some_need e,
    book_cost-ge rows need c p q v dear e,
  )
  Answers-Bought (err not_enough) e = (book_cost_iff rows need some_need).0 e
  Answers-Bought (err overflow) h = tt
  Answers-Bought (err out_of_int64) h = tt
  Answers-Bought (err Err.database) h = h
  Answers-Bought (err Err.no_source_assets) h = h
  Answers-Bought (err Err.invalid_max_length) h = h
  Answers-Bought (err Err.panic) h = h

-- For rows with real prices and amounts, of which none is cheaper than a price, and for a positive
-- need below 2^63: the loop over the order book returns a cost only if the rows sell as much, and the
-- cost is at least that price for each unit; it says "not enough" only if the rows sell less; and it
-- has no other errors but those of numbers that leave int64.
pub consume-Bought :
    (rows : List Row) (need p q : ℕ)
    → 0 < need
    → need < 2 ^ 63
    → All IsRow rows
    → All (λ r. p * r.d ≤ r.n * q) rows
    → Bought p q need rows (consume (map offer rows) (pos need) (pos 0))
consume-Bought rows need p q some_need h v dear =
    Answers-Bought rows need p q some_need v dear (consume (map offer rows) (pos need) (pos 0))
      (consume-Answers rows need 0 v h (omega arith))
