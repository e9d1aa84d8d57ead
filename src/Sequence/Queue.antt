-- ===== src/Sequence/Queue.antt =====
-- services/horizon/internal/txsub/sequence/queue.go: the submission queue of one source account.
-- A channel is made by the caller, who hands its number in. What `Update` sends comes back as the
-- list of signals, in the order of sending; `now` is the clock at the call, in nanoseconds.
pub mod Release
pub mod Update
pub mod Flow
use dfc_api.Base.{
  ℕ, zero, suc, ◌+◌, ◌-◌, ◌*◌, ◌%◌, ◌^◌, Bool, true, false, not, List, [], ◌∷◌, none, some, ltb,
  leb, ◌==◌, if◌then◌else◌, length,
}
use dfc_api.Sequence.Item.{Item, Signal, bad_sequence}
use dfc_api.Sequence.Heap
use dfc_api.Sequence.Heap.{at}

pub record Queue : Type 0 where
  pub last_active_at : ℕ
  pub timeout : ℕ
  pub next_sequence : ℕ  -- uint64
  pub queue : List Item

-- heap.Init of the nil slice does nothing.
unfoldable pub new_queue : ℕ → Queue
new_queue now = record {
  last_active_at = now;
  timeout = 10 * 1_000_000_000;
  next_sequence = 0;
  queue = [];
}

abbrev pub size : Queue → ℕ
size q = length q.queue

unfoldable pub push : ℕ → ℕ → Queue → Queue
push sequence chan q = record q {
  queue = Heap.push (record { sequence = sequence; chan = chan }) q.queue;
}

-- What the released entry is told, once `next` is the next sequence number of the account.
unfoldable pub verdict : ℕ → Item → Signal
verdict next i = record {
  chan = i.chan;
  err = if ltb i.sequence next then some bad_sequence else none;
}

unfoldable pub refuse : Item → Signal
refuse i = record { chan = i.chan; err = some bad_sequence }

-- The `for` loop of `Update`: entries are popped until the head is past `next`.
unfoldable pub release : ℕ → ℕ → List Item → List Item × List Signal
release zero next a = (a, [])
release (suc fuel) next [] = ([], [])
release (suc fuel) next (x ∷ a) = elim (ltb next x.sequence) [
  | true ↦ (x ∷ a, [])
  | false ↦
      let (left, signals) = release fuel next (Heap.pop_last (length a) (x ∷ a)).1 in
      (left, verdict next x ∷ signals)
]

-- The loop that clears a queue which has timed out.
unfoldable pub drain : ℕ → List Item → List Signal
drain zero a = []
drain (suc fuel) [] = []
drain (suc fuel) (x ∷ a) =
    let popped = Heap.pop_last (length a) (x ∷ a) in refuse popped.0 ∷ drain fuel popped.1

-- `q.nextSequence`, raised past `sequence`; the sum wraps at 64 bits.
unfoldable pub raise : ℕ → ℕ → ℕ
raise next sequence = if leb next sequence then (sequence + 1) % 2 ^ 64 else next

abbrev pub is_empty : List Signal → Bool
is_empty [] = true
is_empty _ = false

-- The end of `Update`, after the loop has left `left` in the queue and sent `signals`.
unfoldable pub settle : ℕ → Queue → List Item × List Signal → Queue × List Signal
settle now q (left, signals) =
    if not (is_empty signals)
    then (record q { queue = left; last_active_at = now }, signals)
    else if ltb q.timeout (now - q.last_active_at)
    then (record q { queue = [] }, drain (length left) left)
    else (record q { queue = left }, [])

unfoldable pub update : ℕ → ℕ → Queue → Queue × List Signal
unfolding settle raise
update now sequence q =
    let next = raise q.next_sequence sequence in
    settle now (record q { next_sequence = next }) (release (length q.queue) next q.queue)
