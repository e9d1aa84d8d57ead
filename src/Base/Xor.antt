-- ===== src/Base/Xor.antt =====
-- Bitwise exclusive or: it can be cancelled on either side, and keeps to the lowest bits.
use Prim.Native.Nat.{
  ℕ, zero, suc, ◌+◌, ◌*◌, ◌/◌, ◌%◌, ◌^◌, ◌≤◌, ◌<◌, differ, bit_xor, digits, bit_xor-bitwise,
}
use mathlib.Core.Path.{◌≡◌, refl, ap}
use native.Mathlib.Omega.{arith}
use native.Mathlib.Nat.{pow-suc}

abbrev xor_digits : ℕ → ℕ → ℕ → ℕ
xor_digits fuel a b = digits (λ x. x) differ fuel a b

xor_digits_enough : (n m a b : ℕ) → a ≤ n → a ≤ m → xor_digits n a b ≡ xor_digits m a b
xor_digits_enough zero zero zero b h k = refl
xor_digits_enough zero (suc m) zero b h k = refl
xor_digits_enough (suc n) zero zero b h k = refl
xor_digits_enough (suc n) (suc m) zero b h k = refl
xor_digits_enough zero m (suc a) b h k = absurd (omega arith)
xor_digits_enough (suc n) zero (suc a) b h k = absurd (omega arith)
xor_digits_enough (suc n) (suc m) (suc a) b h k =
    omega (arith, xor_digits_enough n m (suc a / 2) (b / 2) (omega arith) (omega arith))

differ-sum : (p q : ℕ) → p < 2 → q < 2 → differ p q ≡ (p + q) % 2
differ-sum zero q h k = omega arith
differ-sum (suc zero) zero h k = refl
differ-sum (suc zero) (suc zero) h k = refl
differ-sum (suc zero) (suc (suc q)) h k = absurd (omega arith)
differ-sum (suc (suc p)) q h k = absurd (omega arith)

xor-step : (a b : ℕ) → bit_xor a b ≡ bit_xor (a / 2) (b / 2) * 2 + differ (a % 2) (b % 2)
xor-step zero b = omega (arith, bit_xor-bitwise zero b, bit_xor-bitwise zero (b / 2))
xor-step (suc a) b = omega (
  arith,
  bit_xor-bitwise (suc a) b,
  bit_xor-bitwise (suc a / 2) (b / 2),
  xor_digits_enough a (suc a / 2) (suc a / 2) (b / 2) (omega arith) (omega arith),
)

-- The lowest digit and the others.
xor-lowest : (a b : ℕ) → bit_xor a b ≡ bit_xor (a / 2) (b / 2) * 2 + (a % 2 + b % 2) % 2
xor-lowest a b = omega (arith, xor-step a b, differ-sum (a % 2) (b % 2) (omega arith) (omega arith))

xor_comm_below : (n a b : ℕ) → a ≤ n → b ≤ n → bit_xor a b ≡ bit_xor b a
xor_comm_below zero zero zero h k = refl
xor_comm_below zero (suc a) b h k = absurd (omega arith)
xor_comm_below zero a (suc b) h k = absurd (omega arith)
xor_comm_below (suc n) a b h k = omega (
  arith,
  xor-lowest a b,
  xor-lowest b a,
  xor_comm_below n (a / 2) (b / 2) (omega arith) (omega arith),
)

pub bit_xor_comm : (a b : ℕ) → bit_xor a b ≡ bit_xor b a
bit_xor_comm a b = xor_comm_below (a + b) a b (omega arith) (omega arith)

xor_cancel_below : (n a x y : ℕ) → x ≤ n → y ≤ n → bit_xor a x ≡ bit_xor a y → x ≡ y
xor_cancel_below zero a x y h k e = omega arith
xor_cancel_below (suc n) a x y h k e =
    let l = xor-lowest a x in
    let r = xor-lowest a y in
    omega (
      arith,
      l,
      r,
      xor_cancel_below n (a / 2) (x / 2) (y / 2) (omega arith) (omega arith) (omega (arith, l, r)),
    )

pub bit_xor_cancel : (a x y : ℕ) → bit_xor a x ≡ bit_xor a y → x ≡ y
bit_xor_cancel a x y e = xor_cancel_below (x + y) a x y (omega arith) (omega arith) e

pub bit_xor-lt : (k a b : ℕ) → a < 2 ^ k → b < 2 ^ k → bit_xor a b < 2 ^ k
bit_xor-lt zero a b h i =
    let x : a ≡ 0 = omega arith in let y : b ≡ 0 = omega arith in rw (x, y) (omega arith)
bit_xor-lt (suc k) a b h i = omega (
  arith,
  xor-lowest a b,
  pow-suc 2 k,
  bit_xor-lt k (a / 2) (b / 2) (omega (arith, pow-suc 2 k)) (omega (arith, pow-suc 2 k)),
)

xor-double : (x y b : ℕ) → x ≡ y * 2 → bit_xor x b ≡ bit_xor y (b / 2) * 2 + b % 2
xor-double x y b h =
    let half : x / 2 ≡ y = omega arith in
    omega (arith, xor-lowest x b, ap (λ n. bit_xor n (b / 2)) half)

-- Four digits under a number.
xor-four : (x y b : ℕ) → x ≡ y * 16 → bit_xor x b ≡ bit_xor y (b / 16) * 16 + b % 16
xor-four x y b h =
    let down : b / 2 / 2 / 2 / 2 ≡ b / 16 = omega arith in
    omega (
      arith,
      xor-double x (y * 8) b (omega arith),
      xor-double (y * 8) (y * 4) (b / 2) (omega arith),
      xor-double (y * 4) (y * 2) (b / 2 / 2) (omega arith),
      xor-double (y * 2) y (b / 2 / 2 / 2) (omega arith),
      ap (bit_xor y) down,
    )

-- The lowest byte of a number is that of its exclusive or with whole bytes above it.
pub bit_xor-low : (high b : ℕ) → bit_xor (high * 2 ^ 8) b % 2 ^ 8 ≡ b % 2 ^ 8
bit_xor-low high b = omega (
  arith,
  xor-four (high * 2 ^ 8) (high * 16) b (omega arith),
  xor-four (high * 16) high (b / 16) (omega arith),
)
