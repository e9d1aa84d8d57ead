-- ===== src/Submission/System.antt =====
-- services/horizon/internal/txsub/system.go: `Submit` and `Tick`, around the queue manager and the
-- list of open submissions. What the databases, the core server, the XDR library, the clock and the
-- context answer are the fields of `Outside`; `meanwhile` is what other calls do to the system while
-- a call waits for its turn.

pub mod Answers
pub mod Ticks
use dfc_api.Base.{
  ltb, length, ℕ, Bool, true, false, List, [], ◌∷◌, ◌++◌, Option, none, some, String, ◌⊎◌, inl, inr,
  if◌then◌else◌,
}
use dfc_api.Base.Map.{lookup}
use dfc_api.Sequence.Item
use dfc_api.Sequence.Item.{Signal}
use dfc_api.Sequence.Manager
use dfc_api.Sequence.Manager.{Manager}
use dfc_api.Submission.Result.{
  Err, no_results, canceled, failed, no_more_room, err_bad_sequence, err_no_account, TxResult,
  failure, Sent, Decoded, undecodable, code_is_bad_seq, is_bad_seq,
}
use dfc_api.Submission.OpenList
use dfc_api.Submission.OpenList.{Submissions, Added, unbuffered, bad_hash_length, added}

pub record System : Type 0 where
  pub queues : Manager
  pub pending : Submissions
  pub tick_in_progress : Bool

pub record EnvelopeInfo : Type 0 where
  pub hash : String
  pub sequence : ℕ  -- uint64
  pub source_address : String

-- The case of the `select` that fires: a receive from the queue's channel, or the end of the context.
pub data Waited : Type 0 where
  signalled : Option Item.Err → Waited
  done : Waited

pub record Outside : Type 0 where
  pub extract : String → Err ⊎ EnvelopeInfo
  pub result_by_hash : String → TxResult
  pub get : List String → Err ⊎ List (String × ℕ)
  pub now : ℕ
  pub meanwhile : System → System
  pub waited : Waited
  pub submitter : String → Option Err
  pub decode : String → Decoded
  pub result_again : String → TxResult  -- of the second lookup
  pub later : ℕ  -- the clock after the wait

-- A part of `Submit` finishes the call with a result, or goes on.
pub data Part {ℓ} (A : Type ℓ) : Type ℓ where
  stop : TxResult → Part A
  go : A → Part A

-- The account's entry of the answer of the sequence provider.
unfoldable pub known_account :
    String → EnvelopeInfo → List (String × ℕ) → Part (EnvelopeInfo × List (String × ℕ))
known_account env info seqs = elim (lookup info.source_address seqs) [
  | none ↦ stop (failure err_no_account env)
  | some n ↦ go (info, seqs)
]

unfoldable pub current_sequence :
    Outside → String → EnvelopeInfo → Part (EnvelopeInfo × List (String × ℕ))
unfolding known_account
current_sequence o env info = elim (o.get (info.source_address ∷ [])) [
  | inl e ↦ stop (failure e env)
  | inr seqs ↦ known_account env info seqs
]

-- Only a lookup that finds no result goes on.
unfoldable pub check_result :
    Outside → String → EnvelopeInfo → TxResult → Part (EnvelopeInfo × List (String × ℕ))
unfolding current_sequence
check_result o env info r = elim r.err [
  | some no_results ↦ current_sequence o env info
  | _ ↦ stop r
]

unfoldable pub check : Outside → String → Part (EnvelopeInfo × List (String × ℕ))
unfolding check_result
check o env = elim (o.extract env) [
  | inl e ↦ stop (failure e env)
  | inr info ↦ check_result o env info (o.result_by_hash info.hash)
]

unfoldable pub convert_error : Item.Err → Err
convert_error Item.bad_sequence = err_bad_sequence
convert_error Item.no_more_room = no_more_room

-- A txBAD_SEQ failure is answered by a result that the second lookup finds.
unfoldable pub retry : String → Err → Decoded → TxResult → Part (Unit {0})
retry env e (undecodable d) r = stop (failure d env)
retry env e (code_is_bad_seq false) r = stop (failure e env)
retry env e (code_is_bad_seq true) r = elim r.err [ none ↦ stop r | some x ↦ stop (failure e env) ]

unfoldable pub conclude : Outside → String → EnvelopeInfo → Part (Unit {0})
unfolding retry
conclude o env info = elim (o.submitter env) [
  | none ↦ go tt
  | some e ↦ retry env e (is_bad_seq o.decode (some e)) (o.result_again info.hash)
]

unfoldable pub await : Outside → String → EnvelopeInfo → Waited → Part (Unit {0})
unfolding conclude
await o env info (signalled none) = conclude o env info
await o env info (signalled (some e)) = stop (failure (convert_error e) env)
await o env info done = stop (failure canceled env)

-- The list after `Add`, whose error the call ignores.
unfoldable pub kept : Added → Submissions → Submissions
kept unbuffered s = s
kept bad_hash_length s = s
kept (added s') s = s'

-- `response <- r; close(response)`.
unfoldable pub answer : ℕ → TxResult → List Sent
answer response r = record { chan = response; result = r } ∷ []

-- The end of the call. The response channel has a buffer of one.
unfoldable pub settle :
    Outside → ℕ → EnvelopeInfo → Part (Unit {0}) → System → System × (List Signal × List Sent)
unfolding answer
settle o response info (stop r) sys = (sys, ([], answer response r))
settle o response info (go _) sys =
    let (queues', signals) =
      Manager.update o.later ((info.source_address, info.sequence) ∷ []) sys.queues in
    (
      record sys {
        pending = kept (OpenList.add o.later info.hash response 1 sys.pending) sys.pending;
        queues = queues';
      },
      (signals, []),
    )

-- Push, and an update with the current sequence, which may release the entry at once.
unfoldable pub enqueue :
    Outside → ℕ → EnvelopeInfo → List (String × ℕ) → System → System × List Signal
enqueue o chan info seqs sys =
    let (m, refused) = Manager.push o.now info.source_address info.sequence chan sys.queues in
    let (m', signals) = Manager.update o.now seqs m in
    (record sys { queues = m' }, refused ++ signals)

-- `chan` is the channel of the queue, `response` that of the call.
unfoldable pub submit : Outside → ℕ → ℕ → String → System → System × (List Signal × List Sent)
unfolding check enqueue await settle
submit o chan response env sys = elim (check o env) [
  | stop r ↦ (sys, ([], answer response r))
  | go (info, seqs) ↦
      let (queued, signals) = enqueue o chan info seqs sys in
      let (ended, more) = settle o response info (await o env info o.waited) (o.meanwhile queued) in
      (ended, (signals ++ more.0, more.1))
]

-- What a tick reads of the databases and the clock; `clock` is read by `Clean` at each submission.
pub record Reading : Type 0 where
  pub get : List String → Err ⊎ List (String × ℕ)
  pub result_by_hash : String → TxResult
  pub now : ℕ
  pub clock : String → ℕ
  pub submission_timeout : ℕ

-- A result or a failed transaction finishes the submission, any other error leaves it.
unfoldable pub is_final : Option Err → Bool
is_final none = true
is_final (some (failed xdr)) = true
is_final (some e) = false

unfoldable pub finish_each :
    (String → TxResult) → List String → Submissions → Submissions × List Sent
finish_each lookup_result [] s = (s, [])
finish_each lookup_result (hash ∷ hashes) s =
    let r = lookup_result hash in
    let (s', sent) = if is_final r.err then OpenList.finish r s else (s, []) in
    let (s'', more) = finish_each lookup_result hashes s' in (s'', sent ++ more)

-- The current sequences of the queued accounts, `none` where the tick returns early.
unfoldable pub refresh : Reading → Manager → Option (Manager × List Signal)
refresh t m =
    if ltb 0 (length (Manager.addresses m))
    then elim (t.get (Manager.addresses m)) [
      | inl e ↦ none
      | inr seqs ↦ some (Manager.update t.now seqs m)
    ]
    else some (m, [])

unfoldable pub tick_pending : Reading → Submissions → Submissions × List Sent
unfolding finish_each
tick_pending t s =
    let (s', sent) = finish_each t.result_by_hash (OpenList.pending s) s in
    let (s'', (more, still_open)) = OpenList.clean t.submission_timeout t.clock s' in
    (s'', sent ++ more)

-- A tick that no other call interrupts. The flag is set while it runs and unset at its end.
unfoldable pub tick : Reading → System → System × (List Signal × List Sent)
unfolding refresh tick_pending
tick t sys = if sys.tick_in_progress then (sys, ([], [])) else elim (refresh t sys.queues) [
  | none ↦ (sys, ([], []))
  | some (m, signals) ↦
      let (s, sent) = tick_pending t sys.pending in
      (record sys { queues = m; pending = s }, (signals, sent))
]
