-- ===== src/Sequence/Manager/Waiting.antt =====
-- What waits in the manager, and what `Push` does to it.
use mathlib.Core.Path.{fun_ext}
use dfc_api.Base.{
  ℕ, ◌+◌, ◌≤◌, ◌<◌, ◌≡◌, refl, sym, ap, Bool, true, List, [], ◌∷◌, some, String, arith,
  Option-cases, length, count, count_all, of_bool, inl, inr,
}
use dfc_api.Base.Map.{lookup, insert, total, total-insert_new, total-insert, Distinct}
use dfc_api.Sequence.Item.{Item, no_more_room}
use dfc_api.Sequence.Heap.Laws.{IsOrdered, count-push}
use dfc_api.Sequence.Queue
use dfc_api.Sequence.Queue.{Queue}
use dfc_api.Sequence.Manager.{Manager, size, push, queue_of}

-- A queue that the manager keeps is a heap.
pub record IsValid (m : Manager) : Type 0 where
  pub distinct : Distinct m.queues
  pub ordered : (k : String) (q : Queue) → lookup k m.queues ≡ some q → IsOrdered q.queue

-- How many entries wait on the channels that pass the test.
unfoldable pub waiting : (ℕ → Bool) → Manager → ℕ
waiting p m = total (λ q. count (λ y. p y.chan) q.queue) m.queues

-- A full manager refuses the submission on its own channel and changes nothing.
pub push_full :
    (now : ℕ) (address : String) (sequence chan : ℕ) (m : Manager)
    → m.max_size ≤ size m
    → push now address sequence chan m ≡ (m, record { chan = chan; err = some no_more_room } ∷ [])
unfolding push
push_full now address sequence chan m h = ground arith

-- What the queue of an address holds, before and after an insertion into the map.
queue_of-waiting :
    (f : Queue → ℕ) (now : ℕ) (address : String) (q : Queue) (m : Manager)
    → f (Queue.new_queue now) ≡ 0
    → total f (insert address q m.queues) + f (queue_of now address m) ≡ total f m.queues + f q
unfolding queue_of
queue_of-waiting f now address q m h = elim (Option-cases (lookup address m.queues)) [
  | inl e ↦ rw (e, queue_of) (omega (arith, total-insert_new f address q m.queues e))
  | inr (w, e) ↦ rw (e, queue_of) (total-insert f address q w m.queues e)
]

pub push_room :
    (now : ℕ) (address : String) (sequence chan : ℕ) (m : Manager)
    → size m < m.max_size
    → push now address sequence chan m ≡ (
      record m {
        queues = insert address (Queue.push sequence chan (queue_of now address m)) m.queues;
      },
      [],
    )
unfolding push
push_room now address sequence chan m h = ground arith

abbrev pub waiting_in : (ℕ → Bool) → Queue → ℕ
waiting_in p q = count (λ y. p y.chan) q.queue

waiting_in-push :
    (p : ℕ → Bool) (sequence chan : ℕ) (q : Queue)
    → waiting_in p (Queue.push sequence chan q) ≡ of_bool (p chan) + waiting_in p q
unfolding Queue.push
waiting_in-push p sequence chan q = count-push (λ y. p y.chan) _ q.queue

pub size-eq-waiting : (m : Manager) → size m ≡ waiting (λ c. true) m
unfolding size waiting
size-eq-waiting m =
    ap (λ (f : Queue → ℕ). total f m.queues) (fun_ext (λ q. sym (count_all q.queue)))

waiting-push :
    (now : ℕ) (address : String) (sequence chan : ℕ) (m : Manager) (p : ℕ → Bool)
    → waiting p (record m {
      queues = insert address (Queue.push sequence chan (queue_of now address m)) m.queues;
    })
      ≡ waiting p m + of_bool (p chan)
unfolding waiting Queue.new_queue
waiting-push now address sequence chan m p =
    let q = queue_of now address m in
    omega (
      arith,
      queue_of-waiting (waiting_in p) now address (Queue.push sequence chan q) m refl,
      waiting_in-push p sequence chan q,
    )

pub empty_waiting : (p : ℕ → Bool) (a : List Item) → length a ≡ 0 → count (λ y. p y.chan) a ≡ 0
empty_waiting p [] h = refl
empty_waiting p (x ∷ a) h = absurd (omega arith)

-- Where there is room the submission is queued, and nothing is sent.
pub size-push :
    (now : ℕ) (address : String) (sequence chan : ℕ) (m : Manager)
    → size m < m.max_size
    → (size (push now address sequence chan m).0 ≡ size m + 1)
      × ((p : ℕ → Bool)
          → waiting p (push now address sequence chan m).0 ≡ waiting p m + of_bool (p chan))
      × ((push now address sequence chan m).1 ≡ [])
size-push now address sequence chan m h = rw (push_room now address sequence chan m h) (
  omega (
    arith,
    size-eq-waiting m,
    size-eq-waiting (record m {
      queues = insert address (Queue.push sequence chan (queue_of now address m)) m.queues;
    }),
    waiting-push now address sequence chan m (λ c. true),
  ),
  waiting-push now address sequence chan m,
  refl,
)
