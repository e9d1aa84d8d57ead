-- ===== src/Sequence/Heap/Laws.antt =====
-- The heap as a priority queue: what `push` and `pop` do to a heap, up to the order of its entries.
use dfc_api.Base.{
  ℕ, zero, suc, ◌+◌, ◌≤◌, ◌<◌, ◌≡◌, refl, Bool, List, [], ◌∷◌, ◌++◌, arith, ltb, length,
  length-append, take, count, count-append, of_bool,
}
use dfc_api.Sequence.Item.{Item}
use dfc_api.Sequence.Heap.{at, key, parent, swap, push, pop_last, down}
use dfc_api.Sequence.Heap.Array.{
  at-append, at-take, at-swap, length-swap, count-swap, count-take, count_none,
}
use dfc_api.Sequence.Heap.Up.{IsHeap, Rising, up-IsHeap, count-up, length-up}
use dfc_api.Sequence.Heap.Down.{Sinking, down_lem}

-- The whole slice is a heap.
abbrev pub IsOrdered : List Item → Type 0
IsOrdered a = IsHeap (length a) a

-- No entry has a smaller sequence than `n`.
abbrev pub below : ℕ → Item → Bool
below n y = ltb y.sequence n

append-Rising : (x : Item) (a : List Item) → IsOrdered a → Rising (a ++ x ∷ []) (length a)
append-Rising x a h =
    let size = length-append a (x ∷ []) in
    record {
      inside = omega arith;
      edges = λ c p q s.
          ground (arith, size, at-append a (x ∷ []) c, at-append a (x ∷ []) (parent c), h c);
      bridged = λ c p q s e. absurd (omega arith);
    }

pub push-IsOrdered : (x : Item) (a : List Item) → IsOrdered a → IsOrdered (push x a)
unfolding push
push-IsOrdered x a h =
    rw (length-up (length a + 1) (a ++ x ∷ []) (length a))
      (up-IsHeap (length a + 1) (a ++ x ∷ []) (length a) (omega arith) (append-Rising x a h))

pub count-push :
    (p : Item → Bool) (x : Item) (a : List Item) → count p (push x a) ≡ of_bool (p x) + count p a
unfolding push
count-push p x a = omega (
  arith,
  count-up p (length a + 1) (a ++ x ∷ []) (length a) (omega (arith, length-append a (x ∷ []))),
  count-append p a (x ∷ []),
)

root_least :
    (fuel : ℕ) (a : List Item) (i : ℕ) → IsOrdered a → i < fuel → i < length a → key a 0 ≤ key a i
root_least zero a i h f p = absurd (omega arith)
root_least (suc fuel) a zero h f p = omega arith
root_least (suc fuel) a (suc i) h f p = omega (
  arith,
  h (suc i) (omega arith) p,
  root_least fuel a (parent (suc i)) h (omega arith) (omega arith),
)

-- The head of a heap has the least sequence of all.
pub head_least : (a : List Item) → IsOrdered a → count (below (key a 0)) a ≡ 0
head_least a h =
    count_none (below (key a 0)) a (λ i p. ground (arith, root_least (suc i) a i h (omega arith) p))

-- What a pop leaves of a slice `a`: its head taken out, and a heap.
pub record Popped (a : List Item) (r : Item × List Item) : Type 0 where
  pub head : r.0 ≡ at a 0
  pub counts : (p : Item → Bool) → count p a ≡ of_bool (p r.0) + count p r.1
  pub size : length a ≡ suc (length r.1)
  pub ordered : IsOrdered r.1

length-take : (n : ℕ) (a : List Item) → n ≤ length a → length (take n a) ≡ n
length-take zero a h = omega arith
length-take (suc n) [] h = absurd (omega arith)
length-take (suc n) (x ∷ a) h = omega (arith, length-take n a (omega arith))

take-IsHeap : (n : ℕ) (a : List Item) → IsHeap n a → IsHeap n (take n a)
take-IsHeap n a h c p q =
    ground (arith, h c p q, at-take n a c q, at-take n a (parent c) (omega arith))

-- With its ends swapped, a heap is out of order only at its root and at its end.
swapped_ends : (n : ℕ) (a : List Item) → length a ≡ suc n → IsOrdered a → Sinking n (swap a 0 n) 0
swapped_ends n a e h =
    let entry = at-swap a 0 n in
    record {
      within = omega (arith, length-swap a 0 n);
      edges = λ c p q s. ground (
        arith,
        entry c (omega arith) (omega arith),
        entry (parent c) (omega arith) (omega arith),
        h c,
      );
      bridged = λ c p q s t. absurd (omega arith);
    }

pop_last-Popped : (n : ℕ) (a : List Item) → length a ≡ suc n → IsOrdered a → Popped a (pop_last n a)
unfolding pop_last
pop_last-Popped n a e h =
    let b = swap a 0 n in
    let (order, kept) = down_lem n b (swapped_ends n a e h) in
    let size : length (down (n + 1) b 0 n) ≡ suc n = omega (arith, kept.size, length-swap a 0 n) in
    let short : length (take n (down (n + 1) b 0 n)) ≡ n =
      length-take n (down (n + 1) b 0 n) (omega arith) in
    record {
      head = ground (arith, kept.end, at-swap a 0 n n (omega arith) (omega arith));
      counts = λ p. omega (
        arith,
        count-take p n (down (n + 1) b 0 n) size,
        kept.counts p,
        count-swap p a 0 n (omega arith) (omega arith),
      );
      size = omega arith;
      ordered = rw short (take-IsHeap n (down (n + 1) b 0 n) order);
    }

pub pop-Popped :
    (x : Item) (a : List Item) → IsOrdered (x ∷ a) → Popped (x ∷ a) (pop_last (length a) (x ∷ a))
pop-Popped x a h = pop_last-Popped (length a) (x ∷ a) refl h
