-- ===== src/SimplePath/OrderBook/Rounding.antt =====
-- The roundings of the order book at the non-negative amounts and positive prices of real offers.
use native.Mathlib.Nat.{mul-div-le, lt-mul-div-succ, div-lt_iff_lt-mul, mul_comm}
use dfc_api.Base.{
  ℕ, suc, ◌+◌, ◌-◌, ◌*◌, ◌/◌, ◌^◌, ◌≤◌, ◌<◌, ◌≡◌, arith, ltb, leb, Bool-cases, inl, inr,
  if◌then◌else◌,
}
use dfc_api.Base.Int.{ℤ, pos, ◌+ℤ◌, ◌-ℤ◌, ◌*ℤ◌}
use dfc_api.SimplePath.Result.{Result, ok, err, out_of_int64}
use dfc_api.SimplePath.OrderBook.{
  quo, to_int64_checked, mul_fraction_round_down, mul_fraction_round_up, selling_bound,
}

abbrev pub ceil_div : ℕ → ℕ → ℕ
ceil_div a d = (a + d - 1) / d

-- The value as an int64, or the error of the conversion.
abbrev pub checked : ℕ → Result ℤ
checked n = if ltb n (2 ^ 63) then ok (pos n) else err out_of_int64

pos-*ℤ : (a b : ℕ) → pos a *ℤ pos b ≡ pos (a * b)
unfolding ◌*ℤ◌
pos-*ℤ a b = ground arith

pos-up : (a d : ℕ) → 0 < d → pos a +ℤ pos d -ℤ pos 1 ≡ pos (a + d - 1)
unfolding ◌+ℤ◌ ◌-ℤ◌
pos-up a d h = ground arith

quo-pos : (a d : ℕ) → 0 < d → quo (pos a) (pos d) ≡ ok (pos (a / d))
unfolding quo
quo-pos a d h = ground arith

to_int64_checked-pos : (a : ℕ) → to_int64_checked (pos a) ≡ checked a
unfolding to_int64_checked
to_int64_checked-pos a = ground arith

pub mul_fraction_round_down-pos :
    (x n d : ℕ) → 0 < d → mul_fraction_round_down (pos x) (pos n) (pos d) ≡ checked (x * n / d)
unfolding mul_fraction_round_down
mul_fraction_round_down-pos x n d h =
    rw (pos-*ℤ x n, quo-pos (x * n) d h) (to_int64_checked-pos (x * n / d))

pub mul_fraction_round_up-pos :
    (x n d : ℕ)
    → 0 < d
    → mul_fraction_round_up (pos x) (pos n) (pos d) ≡ checked (ceil_div (x * n) d)
unfolding mul_fraction_round_up
mul_fraction_round_up-pos x n d h =
    rw (pos-*ℤ x n, pos-up (x * n) d h, quo-pos (x * n + d - 1) d h)
      (to_int64_checked-pos (ceil_div (x * n) d))

-- Rounding up is the least whole number that covers the fraction.
pub ceil_div_bounds : (a d : ℕ) → 0 < d → (a ≤ d * ceil_div a d) × (d * ceil_div a d < a + d)
ceil_div_bounds a d h = omega (arith, mul-div-le (a + d - 1) d, lt-mul-div-succ (a + d - 1) h)

pub ceil_div-le : (a d k : ℕ) → 0 < d → a ≤ d * k → ceil_div a d ≤ k
ceil_div-le a d k h l =
    let below : ceil_div a d < suc k =
      (div-lt_iff_lt-mul {x = a + d - 1} {y = suc k} h).1 (grind arith) in
    omega arith

-- What an offer can sell: all of it at a price above one, and else a whole number of buying units.
abbrev pub sellable : ℕ → ℕ → ℕ → ℕ
sellable amount n d = if leb n d then ceil_div (amount * n / d * d) n else amount

pub sellable-le : (amount n d : ℕ) → 0 < n → 0 < d → sellable amount n d ≤ amount
sellable-le amount n d hn hd = ground (
  arith,
  mul-div-le (amount * n) d,
  mul_comm (amount * n / d) d,
  mul_comm n amount,
  ceil_div-le (amount * n / d * d) n amount hn,
)

down-le : (amount n d : ℕ) → n ≤ d → 0 < d → amount * n / d ≤ amount
down-le amount n d h hd =
    let below : amount * n / d < suc amount =
      (div-lt_iff_lt-mul {x = amount * n} {y = suc amount} hd).1 (grind arith) in
    omega arith

-- The bound of an offer is always computed: neither rounding leaves the range of int64.
pub selling_bound-pos :
    (amount n d : ℕ)
    → amount < 2 ^ 63
    → 0 < n
    → 0 < d
    → selling_bound (pos amount) (pos n) (pos d) ≡ ok (pos (sellable amount n d))
unfolding selling_bound
selling_bound-pos amount n d h hn hd = elim (Bool-cases (leb n d)) [
  | inr high ↦ ground arith
  | inl low ↦
      let down : amount * n / d < 2 ^ 63 = ground (arith, down-le amount n d) in
      let up : sellable amount n d < 2 ^ 63 = omega (arith, sellable-le amount n d hn hd) in
      ground (
        arith,
        mul_fraction_round_down-pos amount n d hd,
        mul_fraction_round_up-pos (amount * n / d) d n hn,
      )
]
