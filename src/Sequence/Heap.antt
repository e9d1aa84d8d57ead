-- ===== src/Sequence/Heap.antt =====
-- services/horizon/internal/txsub/sequence/queue.go: `pqueue` under Go's container/heap, whose
-- `up`, `down`, `Push` and `Pop` are written out over the methods `Less`, `Swap`, `Push`, `Pop`.
pub mod Array
pub mod Up
pub mod Down
pub mod Laws
use dfc_api.Base.{
  ℕ, zero, suc, ◌+◌, ◌-◌, ◌*◌, ◌/◌, Bool, true, false, not, ◌&&◌, ◌||◌, List, [], ◌∷◌, ◌++◌, Option,
  none, some, ltb, leb, ◌==◌, if◌then◌else◌, length, set, take,
}
use dfc_api.Sequence.Item.{Item}

-- `pq[i]`; every index that the heap uses is below the length.
unfoldable pub at : List Item → ℕ → Item
at [] i = record { sequence = 0; chan = 0 }
at (x ∷ a) zero = x
at (x ∷ a) (suc i) = at a i

abbrev pub key : List Item → ℕ → ℕ
key a i = (at a i).sequence

unfoldable pub less : List Item → ℕ → ℕ → Bool
less a i j = ltb (key a i) (key a j)

unfoldable pub swap : List Item → ℕ → ℕ → List Item
swap a i j = set (set a i (at a j)) j (at a i)

abbrev pub parent : ℕ → ℕ
parent j = (j - 1) / 2

-- The loop of heap.up, which goes from `j` to the root.
unfoldable pub up : ℕ → List Item → ℕ → List Item
up zero a j = a
up (suc fuel) a j = elim (parent j == j || not (less a j (parent j))) [
  | true ↦ a
  | false ↦ up fuel (swap a (parent j) j) (parent j)
]

unfoldable pub smaller_child : List Item → ℕ → ℕ → ℕ
smaller_child a i n =
    let left = 2 * i + 1 in if ltb (left + 1) n && less a (left + 1) left then left + 1 else left

-- The loop of heap.down over the first `n` entries.
unfoldable pub down : ℕ → List Item → ℕ → ℕ → List Item
down zero a i n = a
down (suc fuel) a i n = elim (leb n (2 * i + 1) || not (less a (smaller_child a i n) i)) [
  | true ↦ a
  | false ↦ down fuel (swap a i (smaller_child a i n)) (smaller_child a i n) n
]

-- heap.Push: append, then sift the last entry up.
unfoldable pub push : Item → List Item → List Item
unfolding up less swap at
push x a = up (length a + 1) (a ++ x ∷ []) (length a)

-- heap.Pop of a slice with `n + 1` entries: swap the ends, sift the new root down, cut the last.
unfoldable pub pop_last : ℕ → List Item → Item × List Item
unfolding down smaller_child less swap at
pop_last n a = let b = down (n + 1) (swap a 0 n) 0 n in (at b n, take n b)

-- heap.Pop panics on an empty slice.
unfoldable pub pop : List Item → Option (Item × List Item)
unfolding pop_last
pop [] = none
pop (x ∷ a) = some (pop_last (length a) (x ∷ a))
