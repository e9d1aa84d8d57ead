-- ===== src/Sequence/Heap/Up.antt =====
-- Sifting an entry up restores the order of the heap.
use dfc_api.Base.{
  ℕ, zero, suc, ◌≤◌, ◌<◌, ◌≡◌, ◌≢◌, inl, inr, Bool, true, false, not, ◌||◌, List, arith, ◌==◌,
  Bool-cases, length, count, ltb,
}
use dfc_api.Sequence.Item.{Item}
use dfc_api.Sequence.Heap.{key, less, swap, parent, up}
use dfc_api.Sequence.Heap.Array.{length-swap, at-swap, count-swap}

-- Each of the first `n` entries is at least its parent.
abbrev pub IsHeap : ℕ → List Item → Type 0
IsHeap n a = (c : ℕ) → 0 < c → c < n → key a (parent c) ≤ key a c

-- The children of `j` are at least the parent of `j`.
abbrev pub IsBridged : ℕ → List Item → ℕ → Type 0
IsBridged n a j = (c : ℕ) → 0 < c → c < n → 0 < j → parent c ≡ j → key a (parent j) ≤ key a c

-- Only the edge from `j` to its parent may be out of order.
pub record Rising (a : List Item) (j : ℕ) : Type 0 where
  pub inside : j < length a
  pub edges : (c : ℕ) → 0 < c → c < length a → c ≢ j → key a (parent c) ≤ key a c
  pub bridged : IsBridged (length a) a j

swap-Rising :
    (a : List Item) (j : ℕ)
    → Rising a j
    → 0 < j
    → key a j < key a (parent j)
    → Rising (swap a (parent j) j) (parent j)
swap-Rising a j r pos below =
    let size = length-swap a (parent j) j in
    let high : parent j < length a = omega (arith, r.inside) in
    let entry = at-swap a (parent j) j in
    record {
      inside = omega arith;
      edges = λ c p q s. ground (
        arith,
        entry c high r.inside,
        entry (parent c) high r.inside,
        r.edges c,
        r.edges (parent j),
        r.bridged c,
      );
      bridged = λ c p q s t. ground (
        arith,
        entry c high r.inside,
        entry (parent (parent j)) high r.inside,
        r.edges c,
        r.edges (parent j),
      );
    }

-- One round of the loop.
module _ (fuel : ℕ) (a : List Item) (j : ℕ) where
  up_stops : parent j == j || not (less a j (parent j)) ≡ true → up (suc fuel) a j ≡ a
  unfolding up
  up_stops h = rw (h, up)

  up_swaps :
      parent j == j || not (less a j (parent j)) ≡ false
      → up (suc fuel) a j ≡ up fuel (swap a (parent j) j) (parent j)
  unfolding up
  up_swaps h = rw (h, up)

pub up-IsHeap :
    (fuel : ℕ) (a : List Item) (j : ℕ) → j < fuel → Rising a j → IsHeap (length a) (up fuel a j)
unfolding less
up-IsHeap zero a j h r = absurd (omega arith)
up-IsHeap (suc fuel) a j h r =
    elim (Bool-cases (parent j == j || not (ltb (key a j) (key a (parent j))))) [
      | inl stop ↦ rw (up_stops fuel a j stop) (λ c p q. ground (arith, r.edges c))
      | inr more ↦
          rw (up_swaps fuel a j more, ← length-swap a (parent j) j)
            (up-IsHeap fuel (swap a (parent j) j) (parent j) (ground arith)
              (swap-Rising a j r (ground arith) (ground arith)))
    ]

pub count-up :
    (p : Item → Bool) (fuel : ℕ) (a : List Item) (j : ℕ)
    → j < length a
    → count p (up fuel a j) ≡ count p a
unfolding up
count-up p zero a j h = omega arith
count-up p (suc fuel) a j h = ground (
  arith,
  count-swap p a (parent j) j (omega arith) h,
  count-up p fuel (swap a (parent j) j) (parent j) (omega (arith, length-swap a (parent j) j)),
)

pub length-up : (fuel : ℕ) (a : List Item) (j : ℕ) → length (up fuel a j) ≡ length a
unfolding up
length-up zero a j = omega arith
length-up (suc fuel) a j =
    ground (arith, length-swap a (parent j) j, length-up fuel (swap a (parent j) j) (parent j))
