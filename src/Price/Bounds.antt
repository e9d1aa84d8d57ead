-- ===== src/Price/Bounds.antt =====
-- The approximation of any fraction that is not negative ends, within its bounds.
use dfc_api.Base.{
  ℕ, zero, suc, ◌+◌, ◌*◌, ◌/◌, ◌%◌, ◌≤◌, ◌<◌, ◌≡◌, refl, ◌||◌, ltb, ◌==◌, Bool-cases, ◌⊎◌, inl, inr,
  Option, some, arith,
}
use dfc_api.Base.Int.{pos}
use dfc_api.Price.{
  Parsed, parsed, no_approximation, max_int32, is_zero, price_of, continued_fraction,
}
use dfc_api.Price.Exact.{approximate_ℕ, continued_fraction-found, price_of-pos}

abbrev Ends : Option (ℕ × ℕ) → Type 0
Ends o = (h k : ℕ) × (o ≡ some (h, k)) × (h ≤ max_int32) × (k ≤ max_int32)

bounded-go :
    (fuel p q h1 h0 k1 k0 : ℕ)
    → 0 < q
    → q ≤ fuel
    → h1 ≤ max_int32
    → k1 ≤ max_int32
    → Ends (approximate_ℕ fuel p q h1 h0 k1 k0)
unfolding approximate_ℕ
bounded-go zero p q h1 h0 k1 k0 some_q enough x y = absurd (omega arith)
bounded-go (suc fuel) p q h1 h0 k1 k0 some_q enough x y =
    let h = p / q * h1 + h0 in
    let k = p / q * k1 + k0 in
    elim (Bool-cases (ltb (max_int32 * q) p)) [
      | inl big ↦ rw big (h1, k1, refl, x, y)
      | inr small ↦ elim (Bool-cases (ltb max_int32 h || ltb max_int32 k)) [
        | inl over ↦ rw (small, over) (h1, k1, refl, x, y)
        | inr within ↦ elim (Bool-cases (p % q == 0)) [
          | inl last ↦ rw (small, within, last) (h, k, refl, ground arith, ground arith)
          | inr more ↦
              rw (small, within, more)
                (bounded-go fuel q (p % q) h h1 k k1 (ground arith) (omega arith) (ground arith)
                  (ground arith))
        ]
      ]
    ]

-- How the price of a fraction that is not negative ends.
pub data Priced : Parsed → Type 0 where
  unpriced : Priced no_approximation
  priced :
      (h k : ℕ)
      → 0 < h
      → 0 < k
      → h ≤ max_int32
      → k ≤ max_int32
      → Priced (parsed (record { n = pos h; d = pos k }))

price_of-zero : (h k : ℕ) → (h ≡ 0) ⊎ (k ≡ 0) → price_of (pos h, pos k) ≡ no_approximation
unfolding price_of is_zero
price_of-zero h k e = ground arith

price_of-Priced : (h k : ℕ) → h ≤ max_int32 → k ≤ max_int32 → Priced (price_of (pos h, pos k))
price_of-Priced zero k x y = rw (price_of-zero 0 k (inl refl)) unpriced
price_of-Priced (suc h) zero x y = rw (price_of-zero (suc h) 0 (inr refl)) unpriced
price_of-Priced (suc h) (suc k) x y =
    rw (price_of-pos (suc h) (suc k) (omega arith) (omega arith) x y)
      (priced (suc h) (suc k) (omega arith) (omega arith) x y)

-- Every fraction that is not negative either has no approximation or has a price whose numerator and
-- denominator are positive and int32.
pub continued_fraction-Priced :
    (P Q : ℕ)
    → 0 < Q
    → (result : Parsed) × (continued_fraction (pos P) Q ≡ some result) × Priced result
continued_fraction-Priced P Q some_Q =
    let (h, k, found, x, y) =
      bounded-go (suc Q) P Q 1 0 0 1 some_Q (omega arith) (omega arith) (omega arith) in
    (price_of (pos h, pos k), continued_fraction-found P Q h k found, price_of-Priced h k x y)
