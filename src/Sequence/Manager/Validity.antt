-- ===== src/Sequence/Manager/Validity.antt =====
-- The map of queues stays well formed under `Push`.
use text.Mathlib.Text.{◌==◌ as str_eq}
use dfc_api.Base.{
  ℕ, ◌≡◌, true, false, some, String, arith, leb, Bool-cases, Option-cases, inl, inr, ◌⊎◌,
}
use dfc_api.Base.Map.{
  lookup, insert, delete, lookup-insert, lookup-delete, insert-Distinct, delete-Distinct,
}
use dfc_api.Sequence.Heap.Laws.{IsOrdered, push-IsOrdered}
use dfc_api.Sequence.Queue
use dfc_api.Sequence.Queue.{Queue}
use dfc_api.Sequence.Manager.{Manager, size, push, queue_of}
use dfc_api.Sequence.Manager.Waiting.{IsValid, push_full, push_room}

queue_of-IsOrdered :
    (now : ℕ) (address : String) (m : Manager)
    → IsValid m
    → IsOrdered (queue_of now address m).queue
unfolding queue_of Queue.new_queue
queue_of-IsOrdered now address m v = elim (Option-cases (lookup address m.queues)) [
  | inl e ↦ rw (e, queue_of) (λ c h k. absurd (omega arith))
  | inr (w, e) ↦ rw (e, queue_of) (v.ordered address w e)
]

pub insert-IsValid :
    (address : String) (q : Queue) (m : Manager)
    → IsValid m
    → IsOrdered q.queue
    → IsValid (record m { queues = insert address q m.queues })
insert-IsValid address q m v o = record {
  distinct = insert-Distinct address q m.queues v.distinct;
  ordered = λ k r e. inserted k r e (Bool-cases (str_eq address k));
}
  where
    inserted :
        (k : String) (r : Queue)
        → lookup k (insert address q m.queues) ≡ some r
        → (str_eq address k ≡ true) ⊎ (str_eq address k ≡ false)
        → IsOrdered r.queue
    inserted k r e (inl same) =
        let found : r ≡ q = ground (arith, lookup-insert address k q m.queues) in rw found o
    inserted k r e (inr other) = v.ordered k r (ground (arith, lookup-insert address k q m.queues))

pub delete-IsValid :
    (address : String) (m : Manager)
    → IsValid m
    → IsValid (record m { queues = delete address m.queues })
delete-IsValid address m v = record {
  distinct = delete-Distinct address m.queues v.distinct;
  ordered = λ k r e. v.ordered k r (ground (arith, lookup-delete address k m.queues));
}

pub push-IsValid :
    (now : ℕ) (address : String) (sequence chan : ℕ) (m : Manager)
    → IsValid m
    → IsValid (push now address sequence chan m).0
push-IsValid now address sequence chan m v = elim (Bool-cases (leb m.max_size (size m))) [
  | inl full ↦ rw (push_full now address sequence chan m (ground arith)) v
  | inr room ↦ rw (push_room now address sequence chan m (ground arith)) (
      insert-IsValid address _ m v
        (unfold Queue.push in push-IsOrdered _ _ (queue_of-IsOrdered now address m v)))
]
