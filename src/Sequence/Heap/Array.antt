-- ===== src/Sequence/Heap/Array.antt =====
-- The slice under reads, writes and swaps.
use dfc_api.Base.{
  ℕ, zero, suc, ◌+◌, ◌<◌, ◌≡◌, refl, ap, Bool, false, List, [], ◌∷◌, ◌++◌, arith, ◌==◌,
  if◌then◌else◌, length, set, take, count, of_bool,
}
use dfc_api.Sequence.Item.{Item}
use dfc_api.Sequence.Heap.{at, swap}

pub length-set : (a : List Item) (i : ℕ) (v : Item) → length (set a i v) ≡ length a
length-set [] i v = refl
length-set (head ∷ tail) zero v = refl
length-set (head ∷ tail) (suc i) v = omega (arith, length-set tail i v)

pub length-swap : (a : List Item) (i j : ℕ) → length (swap a i j) ≡ length a
unfolding swap
length-swap a i j = omega (arith, length-set a i (at a j), length-set (set a i (at a j)) j (at a i))

pub at-set :
    (a : List Item) (i j : ℕ) (v : Item)
    → i < length a
    → at (set a i v) j ≡ (if i == j then v else at a j)
unfolding at
at-set [] i j v h = absurd (omega arith)
at-set (x ∷ a) zero zero v h = refl
at-set (x ∷ a) zero (suc j) v h = ground arith
at-set (x ∷ a) (suc i) zero v h = ground arith
at-set (x ∷ a) (suc i) (suc j) v h = ground (arith, at-set a i j v)

pub at-swap :
    (a : List Item) (i j c : ℕ)
    → i < length a
    → j < length a
    → at (swap a i j) c ≡ (if j == c then at a i else if i == c then at a j else at a c)
unfolding swap
at-swap a i j c hi hj =
    let wide : j < length (set a i (at a j)) = omega (arith, length-set a i (at a j)) in
    ground (arith, at-set (set a i (at a j)) j c (at a i) wide, at-set a i c (at a j) hi)

pub at-append : (a b : List Item) (i : ℕ) → i < length a → at (a ++ b) i ≡ at a i
unfolding at
at-append [] b i h = absurd (omega arith)
at-append (x ∷ a) b zero h = refl
at-append (x ∷ a) b (suc i) h = at-append a b i (omega arith)

pub at-take : (n : ℕ) (a : List Item) (i : ℕ) → i < n → at (take n a) i ≡ at a i
unfolding at
at-take zero a i h = absurd (omega arith)
at-take (suc n) [] i h = refl
at-take (suc n) (x ∷ a) zero h = refl
at-take (suc n) (x ∷ a) (suc i) h = at-take n a i (omega arith)

-- A write trades the entry that it replaces.
count-set :
    (p : Item → Bool) (a : List Item) (i : ℕ) (v : Item)
    → i < length a
    → count p (set a i v) + of_bool (p (at a i)) ≡ count p a + of_bool (p v)
unfolding at
count-set p [] i v h = absurd (omega arith)
count-set p (x ∷ a) zero v h = omega arith
count-set p (x ∷ a) (suc i) v h = omega (arith, count-set p a i v)

pub count-swap :
    (p : Item → Bool) (a : List Item) (i j : ℕ)
    → i < length a
    → j < length a
    → count p (swap a i j) ≡ count p a
unfolding swap
count-swap p a i j hi hj =
    let wide : j < length (set a i (at a j)) = omega (arith, length-set a i (at a j)) in
    let kept : at (set a i (at a j)) j ≡ at a j = ground (arith, at-set a i j (at a j) hi) in
    omega (
      arith,
      count-set p a i (at a j) hi,
      count-set p (set a i (at a j)) j (at a i) wide,
      ap (λ (y : Item). of_bool (p y)) kept,
    )

-- A slice of `n + 1` entries is its first `n` and its last.
pub count-take :
    (p : Item → Bool) (n : ℕ) (a : List Item)
    → length a ≡ suc n
    → count p a ≡ count p (take n a) + of_bool (p (at a n))
unfolding at
count-take p n [] h = absurd (omega arith)
count-take p zero (x ∷ []) h = omega arith
count-take p zero (x ∷ y ∷ a) h = absurd (omega arith)
count-take p (suc n) (x ∷ a) h = omega (arith, count-take p n a (omega arith))

pub count_none :
    (p : Item → Bool) (a : List Item)
    → ((i : ℕ) → i < length a → p (at a i) ≡ false)
    → count p a ≡ 0
unfolding at
count_none p [] h = refl
count_none p (x ∷ a) h =
    ground (arith, h 0 (omega arith), count_none p a (λ i q. h (suc i) (omega arith)))
