-- ===== src/Sequence/Manager/Answers.antt =====
-- What `Update` answers, and what it leaves.
use dfc_api.Base.{
  ℕ, ◌+◌, ◌≡◌, Bool, List, [], ◌∷◌, some, String, arith, ◌==◌, Bool-cases, Option-cases, length,
  count, count-append, inl, inr,
}
use dfc_api.Base.Map.{lookup, total-insert, total-delete}
use dfc_api.Sequence.Item.{Signal}
use dfc_api.Sequence.Heap.Laws.{IsOrdered}
use dfc_api.Sequence.Queue
use dfc_api.Sequence.Queue.{Queue}
use dfc_api.Sequence.Queue.Update.{update_answers, update-IsOrdered}
use dfc_api.Sequence.Manager.{Manager, update_queue, update_address, update}
use dfc_api.Sequence.Manager.Waiting.{IsValid, waiting, waiting_in, empty_waiting}
use dfc_api.Sequence.Manager.Validity.{insert-IsValid, delete-IsValid}

update_queue-waiting :
    (p : ℕ → Bool) (now : ℕ) (address : String) (sequence : ℕ) (q : Queue) (m : Manager)
    → IsValid m
    → lookup address m.queues ≡ some q
    → count (λ s. p s.chan) (update_queue now address sequence q m).1
        + waiting p (update_queue now address sequence q m).0
      ≡ waiting p m
unfolding update_queue waiting
update_queue-waiting p now address sequence q m v h =
    let q' = (Queue.update now sequence q).0 in
    let answers = update_answers now sequence q (v.ordered address q h) p in
    elim (Bool-cases (length q'.queue == 0)) [
      | inl gone ↦ rw gone (
          omega (
            arith,
            answers,
            empty_waiting p q'.queue (ground arith),
            total-delete (waiting_in p) address q m.queues v.distinct h,
          ))
      | inr kept ↦
          rw kept (omega (arith, answers, total-insert (waiting_in p) address q' q m.queues h))
    ]

update_queue-IsValid :
    (now : ℕ) (address : String) (sequence : ℕ) (q : Queue) (m : Manager)
    → IsValid m
    → IsOrdered q.queue
    → IsValid (update_queue now address sequence q m).0
unfolding update_queue
update_queue-IsValid now address sequence q m v o =
    let q' = (Queue.update now sequence q).0 in
    elim (Bool-cases (length q'.queue == 0)) [
      | inl gone ↦ rw gone (delete-IsValid address m v)
      | inr kept ↦ rw kept (insert-IsValid address q' m v (update-IsOrdered now sequence q o))
    ]

pub max_size-update_address :
    (now : ℕ) (address : String) (sequence : ℕ) (m : Manager)
    → (update_address now address sequence m).0.max_size ≡ m.max_size
unfolding update_address update_queue
max_size-update_address now address sequence m = ground arith

-- One address, whether it has a queue or not.
pub update_address_lem :
    (now : ℕ) (address : String) (sequence : ℕ) (m : Manager)
    → IsValid m
    → IsValid (update_address now address sequence m).0
      × ((p : ℕ → Bool)
          → count (λ s. p s.chan) (update_address now address sequence m).1
              + waiting p (update_address now address sequence m).0
            ≡ waiting p m)
unfolding update_address
update_address_lem now address sequence m v = elim (Option-cases (lookup address m.queues)) [
  | inl e ↦ rw (e, update_address) (v, λ p. omega arith)
  | inr (q, e) ↦
      rw (e, update_address)
        (
          update_queue-IsValid now address sequence q m v (v.ordered address q e),
          λ p. update_queue-waiting p now address sequence q m v e,
        )
]

pub update-IsValid :
    (now : ℕ) (updates : List (String × ℕ)) (m : Manager)
    → IsValid m
    → IsValid (update now updates m).0
unfolding update
update-IsValid now [] m v = v
update-IsValid now ((address, sequence) ∷ updates) m v =
    update-IsValid now updates (update_address now address sequence m).0
      (update_address_lem now address sequence m v).0

-- Each entry that leaves the manager is answered once on its own channel, and none is lost.
pub update_conserves :
    (p : ℕ → Bool) (now : ℕ) (updates : List (String × ℕ)) (m : Manager)
    → IsValid m
    → count (λ s. p s.chan) (update now updates m).1 + waiting p (update now updates m).0
      ≡ waiting p m
unfolding update
update_conserves p now [] m v = omega arith
update_conserves p now ((address, sequence) ∷ updates) m v =
    let (v', served) = update_address_lem now address sequence m v in
    let m' = (update_address now address sequence m).0 in
    omega (
      arith,
      served p,
      update_conserves p now updates m' v',
      count-append (λ (s : Signal). p s.chan) (update_address now address sequence m).1
          (update now updates m').1,
    )
