-- ===== src/Sequence/Heap/Down.antt =====
-- Sifting the root down restores the order of the first entries of the heap.
use dfc_api.Base.{
  ℕ, zero, suc, ◌+◌, ◌-◌, ◌*◌, ◌≤◌, ◌<◌, ◌≡◌, ◌∙◌, refl, ◌≢◌, ◌⊎◌, inl, inr, Bool, true, false,
  List, arith, ltb, leb, Bool-cases, length, count,
}
use dfc_api.Sequence.Item.{Item}
use dfc_api.Sequence.Heap.{at, key, less, swap, parent, smaller_child, down}
use dfc_api.Sequence.Heap.Array.{length-swap, at-swap, count-swap}
use dfc_api.Sequence.Heap.Up.{IsHeap, IsBridged}

-- Of the first `n` entries only the edges below `i` may be out of order.
pub record Sinking (n : ℕ) (a : List Item) (i : ℕ) : Type 0 where
  pub within : n ≤ length a
  pub edges : (c : ℕ) → 0 < c → c < n → parent c ≢ i → key a (parent c) ≤ key a c
  pub bridged : IsBridged n a i

-- `m` is a child of `i` and the least of them.
record IsLeastChild (n : ℕ) (a : List Item) (i m : ℕ) : Type 0 where
  inside : m < n
  child : (m ≡ 2 * i + 1) ⊎ (m ≡ 2 * i + 2)
  least : (c : ℕ) → 0 < c → c < n → parent c ≡ i → key a m ≤ key a c

smaller_child-IsLeastChild :
    (n : ℕ) (a : List Item) (i : ℕ) → 2 * i + 1 < n → IsLeastChild n a i (smaller_child a i n)
unfolding smaller_child less
smaller_child-IsLeastChild n a i h = record {
  inside = ground arith;
  child = ground arith;
  least = λ c p q e. let side : (c ≡ 2 * i + 1) ⊎ (c ≡ 2 * i + 2) = omega arith in ground arith;
}

swap-Sinking :
    (n : ℕ) (a : List Item) (i m : ℕ)
    → Sinking n a i
    → IsLeastChild n a i m
    → key a m < key a i
    → Sinking n (swap a i m) m
swap-Sinking n a i m s k below =
    let size = length-swap a i m in
    let low : m < length a = omega (arith, k.inside, s.within) in
    let high : i < length a = omega arith in
    let entry = at-swap a i m in
    record {
      within = omega (arith, s.within);
      edges = λ c p q e. ground (
        arith,
        entry c high low,
        entry (parent c) high low,
        s.edges c,
        s.bridged c,
        k.least c,
        s.bridged m,
      );
      bridged = λ c p q t e. ground (arith, entry c high low, entry (parent m) high low, s.edges c);
    }

-- One round of the loop.
module _ (fuel n : ℕ) (a : List Item) (i : ℕ) where
  down_leaf : leb n (2 * i + 1) ≡ true → down (suc fuel) a i n ≡ a
  unfolding down
  down_leaf h = rw (h, down)

  down_settled :
      leb n (2 * i + 1) ≡ false → less a (smaller_child a i n) i ≡ false → down (suc fuel) a i n ≡ a
  unfolding down
  down_settled h k = rw (h, k, down)

  down_swaps :
      leb n (2 * i + 1) ≡ false
      → less a (smaller_child a i n) i ≡ true
      → down (suc fuel) a i n ≡ down fuel (swap a i (smaller_child a i n)) (smaller_child a i n) n
  unfolding down
  down_swaps h k = rw (h, k, down)

-- What a predicate of slices needs to pass from a slice to the sifted one.
module _ {ℓ} (P : ℕ → List Item → ℕ → Type ℓ) (Q : ℕ → List Item → Type ℓ)
    (leaf : (n : ℕ) (a : List Item) (i : ℕ) → n ≤ 2 * i + 1 → P n a i → Q n a)
    (settled : (n : ℕ) (a : List Item) (i m : ℕ)
      → IsLeastChild n a i m
      → key a i ≤ key a m
      → P n a i
      → Q n a)
    (swapped : (n : ℕ) (a : List Item) (i m : ℕ)
      → IsLeastChild n a i m
      → key a m < key a i
      → P n a i
      → P n (swap a i m) m) where
  down_rule : (fuel n : ℕ) (a : List Item) (i : ℕ) → n - i < fuel → P n a i → Q n (down fuel a i n)
  unfolding less
  down_rule zero n a i h s = absurd (omega arith)
  down_rule (suc fuel) n a i h s =
      let m = smaller_child a i n in
      elim (Bool-cases (leb n (2 * i + 1))) [
        | inl end ↦ rw (down_leaf fuel n a i end) (leaf n a i (ground arith) s)
        | inr inner ↦
            let k = smaller_child-IsLeastChild n a i (ground arith) in
            elim (Bool-cases (ltb (key a m) (key a i))) [
              | inl lower ↦ rw (down_swaps fuel n a i inner lower) (
                  down_rule fuel n (swap a i m) m (omega (arith, k.child, k.inside))
                    (swapped n a i m k (ground arith) s))
              | inr kept ↦
                  rw (down_settled fuel n a i inner kept) (settled n a i m k (ground arith) s)
            ]
      ]

-- What sifting keeps of the slice `a₀`: its entries, its length, and the entry at `n`.
pub record Keeps (a₀ : List Item) (n : ℕ) (a : List Item) : Type 0 where
  pub counts : (p : Item → Bool) → count p a ≡ count p a₀
  pub size : length a ≡ length a₀
  pub end : at a n ≡ at a₀ n

swap-Keeps :
    (a₀ : List Item) (n : ℕ) (a : List Item) (i m : ℕ)
    → n ≤ length a
    → i < m
    → m < n
    → Keeps a₀ n a
    → Keeps a₀ n (swap a i m)
swap-Keeps a₀ n a i m w l h k = record {
  counts = λ p. count-swap p a i m (omega arith) (omega arith) ∙ k.counts p;
  size = length-swap a i m ∙ k.size;
  end = ground (arith, at-swap a i m n (omega arith) (omega arith), k.end);
}

-- A slice whose root alone is too large becomes a heap of the same entries.
pub down_lem :
    (n : ℕ) (a : List Item)
    → Sinking n a 0
    → IsHeap n (down (n + 1) a 0 n) × Keeps a n (down (n + 1) a 0 n)
down_lem n a s =
    down_rule (λ n' b i. Sinking n' b i × Keeps a n' b) (λ n' b. IsHeap n' b × Keeps a n' b)
      (λ n' b i h p. ((λ c q r. p.0.edges c q r (omega arith)), p.1))
      (λ n' b i m k h p. ((λ c q r. ground (arith, p.0.edges c, k.least c)), p.1))
      (λ n' b i m k h p. (
        swap-Sinking n' b i m p.0 k h,
        swap-Keeps a n' b i m p.0.within (omega (arith, k.child)) k.inside p.1,
      ))
      (n + 1) n a 0 (omega arith) (s, record { counts = λ p. refl; size = refl; end = refl })
