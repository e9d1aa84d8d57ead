-- ===== src/Sequence/Manager.antt =====
-- services/horizon/internal/txsub/sequence/manager.go: one queue for each source account. The mutex
-- makes every method one step; a map is an association list.
pub mod Waiting
pub mod Validity
pub mod Answers
pub mod Bounds
pub mod Accounts
use dfc_api.Base.{
  ℕ, Bool, List, [], ◌∷◌, ◌++◌, Option, none, some, String, leb, ◌==◌, if◌then◌else◌,
}
use dfc_api.Base.Map.{lookup, insert, delete, keys, total}
use dfc_api.Sequence.Item.{Signal, Err, no_more_room}
use dfc_api.Sequence.Queue
use dfc_api.Sequence.Queue.{Queue}

pub record Manager : Type 0 where
  pub max_size : ℕ
  pub queues : List (String × Queue)

unfoldable pub new_manager : Manager
new_manager = record { max_size = 1024; queues = [] }

unfoldable pub size : Manager → ℕ
size m = total Queue.size m.queues

unfoldable pub addresses : Manager → List String
addresses m = keys m.queues

-- A channel that already holds its error.
unfoldable pub get_error : ℕ → Err → Signal
get_error chan err = record { chan = chan; err = some err }

-- The queue of an address, a new one if it has none.
unfoldable pub queue_of : ℕ → String → Manager → Queue
queue_of now address m = elim (lookup address m.queues) [ none ↦ Queue.new_queue now | some q ↦ q ]

-- `chan` is the channel that the call returns.
unfoldable pub push : ℕ → String → ℕ → ℕ → Manager → Manager × List Signal
unfolding size get_error queue_of
push now address sequence chan m =
    if leb m.max_size (size m) then (m, get_error chan no_more_room ∷ []) else (
      record m {
        queues = insert address (Queue.push sequence chan (queue_of now address m)) m.queues;
      },
      [],
    )

-- The body of the loop of `Update`, where the address has a queue.
unfoldable pub update_queue : ℕ → String → ℕ → Queue → Manager → Manager × List Signal
update_queue now address sequence q m =
    let (q', signals) = Queue.update now sequence q in
    (
      record m {
        queues = if Queue.size q' == 0 then delete address m.queues else insert address q' m.queues;
      },
      signals,
    )

unfoldable pub update_address : ℕ → String → ℕ → Manager → Manager × List Signal
unfolding update_queue
update_address now address sequence m = elim (lookup address m.queues) [
  | none ↦ (m, [])
  | some q ↦ update_queue now address sequence q m
]

unfoldable pub update : ℕ → List (String × ℕ) → Manager → Manager × List Signal
unfolding update_address
update now [] m = (m, [])
update now ((address, sequence) ∷ updates) m =
    let (m', signals) = update_address now address sequence m in
    let (m'', more) = update now updates m' in (m'', signals ++ more)
