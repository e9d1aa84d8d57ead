-- ===== src/Crc16/Detects.antt =====
-- The checksum differs when one byte differs.
use dfc_api.Base.{
  ℕ, ◌^◌, ◌<◌, ◌≡◌, ◌≢◌, refl, sym, ap, ◌∙◌, true, false, List, [], ◌∷◌, ◌++◌, get_elem?, ==_iff,
  All, Bool-cases, inl, inr, arith,
}
use dfc_api.Crc16.{entry, step, checksum_from, checksum, bytes_equal, validate}
use dfc_api.Crc16.Steps.{step-lt, step-byte, step-value}

abbrev pub IsByte : ℕ → Type 0
IsByte b = b < 2 ^ 8

checksum_from-lt : (crc : ℕ) (bytes : List ℕ) → crc < 2 ^ 16 → checksum_from crc bytes < 2 ^ 16
unfolding checksum_from
checksum_from-lt crc [] h = h
checksum_from-lt crc (b ∷ bytes) h = checksum_from-lt (step crc b) bytes (step-lt crc b)

pub checksum-IsByte : (bytes : List ℕ) → All IsByte (checksum bytes)
unfolding checksum
checksum-IsByte bytes =
    let bounded = checksum_from-lt 0 bytes (omega arith) in (omega arith, (omega arith, tt))

checksum_from-append :
    (crc : ℕ) (xs ys : List ℕ)
    → checksum_from crc (xs ++ ys) ≡ checksum_from (checksum_from crc xs) ys
unfolding checksum_from
checksum_from-append crc [] ys = refl
checksum_from-append crc (x ∷ xs) ys = checksum_from-append (step crc x) xs ys

checksum_from_cancel :
    (c d : ℕ) (bytes : List ℕ)
    → c < 2 ^ 16
    → d < 2 ^ 16
    → All IsByte bytes
    → checksum_from c bytes ≡ checksum_from d bytes
    → c ≡ d
unfolding checksum_from
checksum_from_cancel c d [] h k l e = e
checksum_from_cancel c d (b ∷ bytes) h k l e =
    step-value c d b h k l.0
      (checksum_from_cancel (step c b) (step d b) bytes (step-lt c b) (step-lt d b) l.1 e)

checksum_cancel :
    (xs ys : List ℕ) → checksum xs ≡ checksum ys → checksum_from 0 xs ≡ checksum_from 0 ys
unfolding checksum entry
checksum_cancel xs ys e =
    omega
      (arith, ap (λ bytes. entry (get_elem? bytes 0)) e, ap (λ bytes. entry (get_elem? bytes 1)) e)

-- Data that differ in one byte have different checksums.
pub checksum-Detects :
    (front back : List ℕ) (a b : ℕ)
    → IsByte a
    → IsByte b
    → All IsByte back
    → a ≢ b
    → checksum (front ++ (a ∷ back)) ≢ checksum (front ++ (b ∷ back))
unfolding checksum_from
checksum-Detects front back a b h k l differs e =
    let before = checksum_from 0 front in
    let bounded : before < 2 ^ 16 = checksum_from-lt 0 front (omega arith) in
    let after : checksum_from (step before a) back ≡ checksum_from (step before b) back =
      sym (checksum_from-append 0 front (a ∷ back))
      ∙ checksum_cancel (front ++ (a ∷ back)) (front ++ (b ∷ back)) e
      ∙ checksum_from-append 0 front (b ∷ back) in
    differs (
      step-byte before a b bounded h k (
        checksum_from_cancel (step before a) (step before b) back (step-lt before a)
          (step-lt before b) l after))

bytes_equal_refl : (xs : List ℕ) → bytes_equal xs xs ≡ true
unfolding bytes_equal
bytes_equal_refl [] = refl
bytes_equal_refl (x ∷ xs) = rw ((==_iff x x).1 refl, bytes_equal_refl xs) refl

bytes_equal_eq : (xs ys : List ℕ) → bytes_equal xs ys ≡ true → xs ≡ ys
unfolding bytes_equal
bytes_equal_eq [] [] e = refl
bytes_equal_eq [] (y ∷ ys) e = ground arith
bytes_equal_eq (x ∷ xs) [] e = ground arith
bytes_equal_eq (x ∷ xs) (y ∷ ys) e = ground (arith, bytes_equal_eq xs ys)

pub validate_own : (bytes : List ℕ) → validate bytes (checksum bytes) ≡ true
unfolding validate
validate_own bytes = bytes_equal_refl (checksum bytes)

pub validate_other :
    (bytes expected : List ℕ) → checksum bytes ≢ expected → validate bytes expected ≡ false
unfolding validate
validate_other bytes expected differs = elim (Bool-cases (bytes_equal (checksum bytes) expected)) [
  | inl same ↦ absurd (differs (bytes_equal_eq (checksum bytes) expected same))
  | inr other ↦ other
]
