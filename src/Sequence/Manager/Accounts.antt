-- ===== src/Sequence/Manager/Accounts.antt =====
-- `Update` serves each account by itself: the order of the map does not matter.
use text.Mathlib.Text.{◌==◌ as str_eq}
use text.Mathlib.TextEquality.{eq_iff}
use dfc_api.Base.{
  ℕ, ◌≡◌, refl, List, [], ◌∷◌, Option, none, some, String, arith, ◌==◌, inl, inr, Option-cases,
  length, if◌then◌else◌,
}
use dfc_api.Base.Map.{lookup, lookup-insert, lookup-delete, Distinct}
use dfc_api.Sequence.Queue
use dfc_api.Sequence.Queue.{Queue}
use dfc_api.Sequence.Manager.{Manager, update_queue, update_address, update}

-- What one update does to the queue of its account: a queue that becomes empty is dropped.
abbrev pub served : ℕ → ℕ → Queue → Option Queue
served now sequence q =
    let q' = (Queue.update now sequence q).0 in if length q'.queue == 0 then none else some q'

-- The same for an account that may have no queue, or no update.
abbrev pub served_by : ℕ → Option ℕ → Option Queue → Option Queue
served_by now (some sequence) (some q) = served now sequence q
served_by now (some sequence) none = none
served_by now none q = q

lookup-update_queue :
    (now : ℕ) (address : String) (sequence : ℕ) (q : Queue) (m : Manager) (k : String)
    → lookup address m.queues ≡ some q
    → lookup k (update_queue now address sequence q m).0.queues ≡ (
        if str_eq address k
        then served_by now (some sequence) (lookup k m.queues)
        else lookup k m.queues)
unfolding update_queue
lookup-update_queue now address sequence q m k e =
    let q' = (Queue.update now sequence q).0 in
    ground (
      arith,
      eq_iff address k,
      lookup-insert address k q' m.queues,
      lookup-delete address k m.queues,
    )

lookup-update_address :
    (now : ℕ) (address : String) (sequence : ℕ) (m : Manager) (k : String)
    → lookup k (update_address now address sequence m).0.queues ≡ (
        if str_eq address k
        then served_by now (some sequence) (lookup k m.queues)
        else lookup k m.queues)
unfolding update_address
lookup-update_address now address sequence m k = elim (Option-cases (lookup address m.queues)) [
  | inl e ↦ rw (e, update_address) (ground (arith, e, eq_iff address k))
  | inr (q, e) ↦ rw (e, update_address) (lookup-update_queue now address sequence q m k e)
]

-- After an update each account has the queue that its own queue and its own number give, and an
-- account that the update does not name keeps its queue.
pub lookup-update :
    (now : ℕ) (updates : List (String × ℕ)) (m : Manager) (k : String)
    → Distinct updates
    → lookup k (update now updates m).0.queues
      ≡ served_by now (lookup k updates) (lookup k m.queues)
unfolding update lookup
lookup-update now [] m k d = refl
lookup-update now ((address, sequence) ∷ updates) m k d =
    let m' = (update_address now address sequence m).0 in
    ground (
      arith,
      eq_iff address k,
      lookup-update now updates m' k d.1,
      lookup-update_address now address sequence m k,
    )
