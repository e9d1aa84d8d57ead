-- ===== src/Price.antt =====
-- price/main.go: the rational approximation of a decimal number by a fraction of two int32.
pub mod Exact
pub mod Bounds
use dfc_api.Base.{
  ℕ, zero, suc, ◌*◌, ◌/◌, ◌-◌, ◌^◌, Bool, true, false, ◌||◌, Option, none, some, String,
  if◌then◌else◌, ◌==◌,
}
use dfc_api.Base.Int.{ℤ, pos, negsuc, ◌+ℤ◌, ◌*ℤ◌, ltb_ℤ, leb_ℤ, wrap, int32}
use dfc_api.Xdr.{Price}

pub data Parsed : Type 0 where
  invalid_format cannot_parse no_approximation : Parsed
  parsed : Price → Parsed

abbrev pub max_int32 : ℕ
max_int32 = 2 ^ 31 - 1

-- The floor of a fraction with a positive denominator.
unfoldable pub floor : ℤ → ℕ → ℤ
floor (pos p) q = pos (p / q)
floor (negsuc p) q = negsuc (p / q)

unfoldable pub is_zero : ℤ → Bool
is_zero (pos n) = n == 0
is_zero (negsuc n) = false

-- The loop from the number `p / q` on, where the last two fractions are `h1 / k1` and `h0 / k0`. The
-- fraction that is left of the number is `wrap q p / q`, whose inverse is the next number. `none` is
-- a lack of fuel.
unfoldable pub approximate : ℕ → ℤ → ℕ → ℤ → ℤ → ℤ → ℤ → Option (ℤ × ℤ)
unfolding floor ◌+ℤ◌ ◌*ℤ◌
approximate zero p q h1 h0 k1 k0 = none
approximate (suc fuel) p q h1 h0 k1 k0 =
    let h = floor p q *ℤ h1 +ℤ h0 in
    let k = floor p q *ℤ k1 +ℤ k0 in
    let rest = approximate fuel (pos q) (wrap q p) h h1 k k1 in
    if ltb_ℤ (pos (max_int32 * q)) p
    then some (h1, k1)
    else if ltb_ℤ (pos max_int32) h || ltb_ℤ (pos max_int32) k
    then some (h1, k1)
    else if wrap q p == 0
    then some (h, k)
    else rest

-- The numbers are integers within an int64 or, where they are below it, cut to one.
unfoldable pub price_of : ℤ × ℤ → Parsed
unfolding is_zero
price_of (n, d) =
    if is_zero n || is_zero d
    then no_approximation
    else parsed (record { n = int32 (wrap (2 ^ 32) n); d = int32 (wrap (2 ^ 32) d) })

unfoldable pub continued_fraction : ℤ → ℕ → Option Parsed
unfolding approximate price_of
continued_fraction p q = elim (approximate (suc q) p q (pos 1) (pos 0) (pos 0) (pos 1)) [
  | none ↦ none
  | some fraction ↦ some (price_of fraction)
]

-- `matches` is the regular expression and `read` the parser of math/big, which gives a numerator and
-- a positive denominator.
unfoldable pub parse : (String → Bool) → (String → Option (ℤ × ℕ)) → String → Option Parsed
unfolding continued_fraction
parse matches read price =
    if matches price
    then elim (read price) [ none ↦ some cannot_parse | some (p, q) ↦ continued_fraction p q ]
    else some invalid_format
