-- ===== src/Submission/OpenList.antt =====
-- services/horizon/internal/txsub/open_submission_list.go: the listeners of the transactions whose
-- result is not known yet. The mutex makes every method one step; the map of submissions by hash is
-- an association list.
pub mod Laws
pub mod Cleaning
use Prim.Native.String.{len}
use dfc_api.Base.{
  ℕ, ◌-◌, Bool, List, [], ◌∷◌, ◌++◌, Option, none, some, String, ltb, ◌==◌, if◌then◌else◌, length,
  map,
}
use dfc_api.Base.Map.{lookup, insert, delete, keys}
use dfc_api.Submission.Result.{Sent, TxResult, failure, timeout}

-- A listener is the number of its channel.
pub record OpenSubmission : Type 0 where
  pub hash : String
  pub submitted_at : ℕ
  pub listeners : List ℕ

abbrev pub Submissions : Type 0
Submissions = List (String × OpenSubmission)

unfoldable pub new_submission_list : Submissions
new_submission_list = []

pub data Added : Type 0 where
  unbuffered : Added  -- the panic
  bad_hash_length : Added
  added : Submissions → Added

-- The submission of a hash, a new one if it has none.
unfoldable pub submission_of : ℕ → String → Submissions → OpenSubmission
submission_of now hash s = elim (lookup hash s) [
  | none ↦ record { hash = hash; submitted_at = now; listeners = [] }
  | some os ↦ os
]

unfoldable pub with_listener : ℕ → OpenSubmission → OpenSubmission
with_listener l os = record os { listeners = os.listeners ++ l ∷ [] }

-- `capacity` is that of the listener's channel.
unfoldable pub add : ℕ → String → ℕ → ℕ → Submissions → Added
unfolding submission_of with_listener
add now hash l capacity s =
    if capacity == 0
    then unbuffered
    else if len hash == 64
    then added (insert hash (with_listener l (submission_of now hash s)) s)
    else bad_hash_length

-- The result on every listener of a submission, in their order.
unfoldable pub send_all : TxResult → List ℕ → List Sent
send_all r ls = map (λ l. record { chan = l; result = r }) ls

unfoldable pub finish : TxResult → Submissions → Submissions × List Sent
unfolding send_all
finish r s = elim (lookup r.hash s) [
  | none ↦ (s, [])
  | some os ↦ (delete r.hash s, send_all r os.listeners)
]

unfoldable pub is_expired : ℕ → ℕ → OpenSubmission → Bool
is_expired max_age now os = ltb max_age (now - os.submitted_at)

-- The loop of `Clean` over the entries of the map; it deletes from the map that it ranges over.
-- `now` is the clock's reading when the loop is at an entry.
unfoldable pub clean_each : ℕ → (String → ℕ) → Submissions → Submissions → Submissions × List Sent
unfolding is_expired send_all
clean_each max_age now [] s = (s, [])
clean_each max_age now ((k, os) ∷ entries) s =
    let s' = if is_expired max_age (now k) os then delete os.hash s else s in
    let (s'', more) = clean_each max_age now entries s' in
    (
      s'',
      (if is_expired max_age (now k) os then send_all (failure timeout "") os.listeners else [])
          ++ more,
    )

-- Also the number of submissions that are left.
unfoldable pub clean : ℕ → (String → ℕ) → Submissions → Submissions × (List Sent × ℕ)
unfolding clean_each
clean max_age now s = let (s', sent) = clean_each max_age now s s in (s', (sent, length s'))

unfoldable pub pending : Submissions → List String
pending s = keys s
