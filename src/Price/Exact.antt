-- ===== src/Price/Exact.antt =====
-- The approximation of a positive fraction: it is found, fits two int32, and is exact where the
-- fraction does.
use dfc_api.Base.{
  ℕ, zero, suc, ◌+◌, ◌*◌, ◌/◌, ◌%◌, ◌≤◌, ◌<◌, ◌≡◌, refl, ap, ◌∙◌, false, ◌||◌, ltb, ◌==◌,
  Bool-cases, inl, inr, Option, none, some, if◌then◌else◌, arith,
}
use dfc_api.Base.Int.{ℤ, pos, ◌+ℤ◌, ◌*ℤ◌, ltb_ℤ}
use dfc_api.Price.{parsed, max_int32, floor, is_zero, approximate, price_of, continued_fraction}

-- The loop on numbers that are not negative.
unfoldable pub approximate_ℕ : ℕ → ℕ → ℕ → ℕ → ℕ → ℕ → ℕ → Option (ℕ × ℕ)
approximate_ℕ zero p q h1 h0 k1 k0 = none
approximate_ℕ (suc fuel) p q h1 h0 k1 k0 =
    let h = p / q * h1 + h0 in
    let k = p / q * k1 + k0 in
    let rest = approximate_ℕ fuel q (p % q) h h1 k k1 in
    if ltb (max_int32 * q) p
    then some (h1, k1)
    else if ltb max_int32 h || ltb max_int32 k
    then some (h1, k1)
    else if p % q == 0
    then some (h, k)
    else rest

abbrev both_pos : Option (ℕ × ℕ) → Option (ℤ × ℤ)
both_pos none = none
both_pos (some (h, k)) = some (pos h, pos k)

zeros : (a h : ℕ) → a * 0 + 0 * h ≡ 0
zeros a h = omega arith

pos-mul : (a h : ℕ) → pos a *ℤ pos h ≡ pos (a * h)
unfolding ◌*ℤ◌
pos-mul a h = rw (zeros a h) (ground arith)

pos-add : (x y : ℕ) → pos x +ℤ pos y ≡ pos (x + y)
unfolding ◌+ℤ◌
pos-add x y = ground arith

pos-step : (a h1 h0 : ℕ) → pos a *ℤ pos h1 +ℤ pos h0 ≡ pos (a * h1 + h0)
pos-step a h1 h0 = rw (pos-mul a h1) (pos-add (a * h1) h0)

-- The tests of a round, on integers and on numbers.
same-round :
    (p q h k h1 k1 r : ℕ) (rest : Option (ℕ × ℕ)) (rest' : Option (ℤ × ℤ))
    → rest' ≡ both_pos rest
    → (if ltb_ℤ (pos (max_int32 * q)) (pos p)
        then some (pos h1, pos k1)
        else if ltb_ℤ (pos max_int32) (pos h) || ltb_ℤ (pos max_int32) (pos k)
        then some (pos h1, pos k1)
        else if r == 0
        then some (pos h, pos k)
        else rest')
      ≡ both_pos (
          if ltb (max_int32 * q) p
          then some (h1, k1)
          else if ltb max_int32 h || ltb max_int32 k
          then some (h1, k1)
          else if r == 0
          then some (h, k)
          else rest)
same-round p q h k h1 k1 r rest rest' e = ground arith

pub approximate-pos :
    (fuel p q h1 h0 k1 k0 : ℕ)
    → approximate fuel (pos p) q (pos h1) (pos h0) (pos k1) (pos k0)
      ≡ both_pos (approximate_ℕ fuel p q h1 h0 k1 k0)
unfolding approximate approximate_ℕ floor
approximate-pos zero p q h1 h0 k1 k0 = refl
approximate-pos (suc fuel) p q h1 h0 k1 k0 =
    let h = p / q * h1 + h0 in
    let k = p / q * k1 + k0 in
    rw (pos-step (p / q) h1 h0, pos-step (p / q) k1 k0)
      (same-round p q h k h1 k1 (p % q) (approximate_ℕ fuel q (p % q) h h1 k k1)
        (approximate fuel (pos q) (p % q) (pos h) (pos h1) (pos k) (pos k1))
        (approximate-pos fuel q (p % q) h h1 k k1))

step-inv : (a q r h1 h0 : ℕ) → (a * h1 + h0) * q + h1 * r ≡ h1 * (a * q + r) + h0 * q
step-inv a q r h1 h0 = omega arith

div-mod : (p q : ℕ) → 0 < q → p / q * q + p % q ≡ p
div-mod p q h = omega arith

mod-lt : (p q : ℕ) → 0 < q → p % q < q
mod-lt p q h = omega arith

le-mul : (a q : ℕ) → 0 < q → a ≤ a * q
le-mul a zero h = absurd (omega arith)
le-mul a (suc q) h = omega arith

le-mul' : (a q : ℕ) → 0 < a → q ≤ a * q
le-mul' zero q h = absurd (omega arith)
le-mul' (suc a) q h = omega arith

number-small :
    (p q h1 h0 k1 k0 P Q : ℕ)
    → h1 * p + h0 * q ≡ P
    → k1 * p + k0 * q ≡ Q
    → 0 < h1 + k1
    → P ≤ max_int32
    → Q ≤ max_int32
    → p ≤ max_int32
number-small p q zero h0 k1 k0 P Q i j one x y = omega (arith, le-mul' k1 p (omega arith))
number-small p q (suc h1) h0 k1 k0 P Q i j one x y = omega (arith, le-mul' (suc h1) p (omega arith))

round_lem :
    (fuel p q h1 h0 k1 k0 : ℕ)
    → p ≤ max_int32
    → 0 < q
    → p / q * h1 + h0 ≤ max_int32
    → p / q * k1 + k0 ≤ max_int32
    → approximate_ℕ (suc fuel) p q h1 h0 k1 k0 ≡ (
        if p % q == 0
        then some (p / q * h1 + h0, p / q * k1 + k0)
        else approximate_ℕ fuel q (p % q) (p / q * h1 + h0) h1 (p / q * k1 + k0) k1)
unfolding approximate_ℕ
round_lem fuel p q h1 h0 k1 k0 small some_q x y =
    let first : ltb (max_int32 * q) p ≡ false = ground (arith, le-mul max_int32 q some_q) in
    let second : ltb max_int32 (p / q * h1 + h0) ≡ false = ground arith in
    let third : ltb max_int32 (p / q * k1 + k0) ≡ false = ground arith in
    rw (first, second, third) refl

-- A fraction in which `P / Q` is reduced by a common factor.
abbrev pub Reduces : ℕ → ℕ → ℕ → ℕ → Type 0
Reduces P Q h k = (g : ℕ) × (0 < g) × (P ≡ h * g) × (Q ≡ k * g)

exact-go :
    (fuel p q h1 h0 k1 k0 P Q : ℕ)
    → 0 < q
    → q ≤ fuel
    → h1 * p + h0 * q ≡ P
    → k1 * p + k0 * q ≡ Q
    → 0 < h1 + k1
    → 0 < h0 + k0
    → P ≤ max_int32
    → Q ≤ max_int32
    → (h k : ℕ) × (approximate_ℕ fuel p q h1 h0 k1 k0 ≡ some (h, k)) × Reduces P Q h k
exact-go zero p q h1 h0 k1 k0 P Q some_q enough i j one one' x y = absurd (omega arith)
exact-go (suc fuel) p q h1 h0 k1 k0 P Q some_q enough i j one one' x y =
    let a = p / q in
    let r = p % q in
    let whole : a * q + r ≡ p = omega arith in
    let i' : (a * h1 + h0) * q + h1 * r ≡ P =
      step-inv a q r h1 h0 ∙ ap (λ n. h1 * n + h0 * q) whole ∙ i in
    let j' : (a * k1 + k0) * q + k1 * r ≡ Q =
      step-inv a q r k1 k0 ∙ ap (λ n. k1 * n + k0 * q) whole ∙ j in
    let h-small : a * h1 + h0 ≤ max_int32 = omega (arith, le-mul (a * h1 + h0) q some_q) in
    let k-small : a * k1 + k0 ≤ max_int32 = omega (arith, le-mul (a * k1 + k0) q some_q) in
    let here =
      round_lem fuel p q h1 h0 k1 k0 (number-small p q h1 h0 k1 k0 P Q i j one x y) some_q h-small
        k-small in
    elim (Bool-cases (r == 0)) [
      | inl last ↦
          let none_left : r ≡ 0 = ground arith in
          let zero-h : h1 * r ≡ 0 = ap (λ n. h1 * n) none_left ∙ omega arith in
          let zero-k : k1 * r ≡ 0 = ap (λ n. k1 * n) none_left ∙ omega arith in
          (
            a * h1 + h0,
            a * k1 + k0,
            rw (here, last) refl,
            (q, some_q, omega (arith, i', zero-h), omega (arith, j', zero-k)),
          )
      | inr more ↦
          rw (here, more)
            (exact-go fuel q r (a * h1 + h0) h1 (a * k1 + k0) k1 P Q (ground arith)
              (omega (arith, mod-lt p q some_q)) i' j' (omega arith) one x y)
    ]

factor-pos : (P h g : ℕ) → 0 < P → P ≡ h * g → 0 < h
factor-pos P zero g some_p e = absurd (omega arith)
factor-pos P (suc h) g some_p e = omega arith

pub price_of-pos :
    (h k : ℕ)
    → 0 < h
    → 0 < k
    → h ≤ max_int32
    → k ≤ max_int32
    → price_of (pos h, pos k) ≡ parsed (record { n = pos h; d = pos k })
unfolding price_of is_zero
price_of-pos h k some_h some_k x y = ground arith

pub continued_fraction-found :
    (P Q h k : ℕ)
    → approximate_ℕ (suc Q) P Q 1 0 0 1 ≡ some (h, k)
    → continued_fraction (pos P) Q ≡ some (price_of (pos h, pos k))
unfolding continued_fraction
continued_fraction-found P Q h k e =
    rw (continued_fraction, approximate-pos (suc Q) P Q 1 0 0 1, e) refl

-- A positive fraction whose numerator and denominator are int32 has its own price: a fraction of two
-- int32 that it reduces to.
pub continued_fraction_lem :
    (P Q : ℕ)
    → 0 < P
    → 0 < Q
    → P ≤ max_int32
    → Q ≤ max_int32
    → (h k : ℕ) × (continued_fraction (pos P) Q ≡ some (parsed (record { n = pos h; d = pos k })))
      × Reduces P Q h k
continued_fraction_lem P Q some_P some_Q x y =
    let (h, k, found, (g, some_g, e, f)) =
      exact-go (suc Q) P Q 1 0 0 1 P Q some_Q (omega arith) (omega arith) (omega arith)
        (omega arith) (omega arith) x y in
    (
      h,
      k,
      continued_fraction-found P Q h k found
          ∙ ap some (
              price_of-pos h k (factor-pos P h g some_P e) (factor-pos Q k g some_Q f)
                (omega (arith, le-mul h g some_g)) (omega (arith, le-mul k g some_g))),
      (g, some_g, e, f),
    )
