-- ===== src/Examples/Submissions.antt =====
-- One open submission of services/horizon/internal/txsub, and a system that has it.
use Prim.Native.String.{len}
use dfc_api.Base.{◌+◌, ◌≡◌, refl, false, [], ◌∷◌, none, String, arith, count, ◌==◌, inr}
use dfc_api.Base.Int.{ℤ}
use dfc_api.Base.Map.{insert, lookup}
use dfc_api.Sequence.Manager
use dfc_api.Sequence.Manager.Waiting.{waiting}
use dfc_api.Sequence.Manager.Bounds.{new_manager-IsBounded}
use dfc_api.Submission.Result.{TxResult, failure, no_results, code_is_bad_seq}
use dfc_api.Submission.OpenList.{Submissions, add}
use dfc_api.Submission.OpenList.Laws.{IsValid, listening, add-IsValid}
use dfc_api.Submission.System.{
  System, EnvelopeInfo, signalled, Outside, submit, Reading, tick, tick_pending,
}
use dfc_api.Submission.System.Answers.{owed, submit_answers}
use dfc_api.Submission.System.Ticks.{Ticked, tick_pending-Ticked, tick_conserves}

abbrev hash : String
hash = "3389e9f0f1a65f19736cacf544c2e825313e8447f569233bb8db39aa607c8889"

abbrev none_open : Submissions
none_open = []

none_open-IsValid : IsValid none_open
none_open-IsValid = record { distinct = tt; each = λ k os e. absurd (unfold lookup in cc e) }

abbrev one_open : Submissions
one_open = (hash, record { hash = hash; submitted_at = 10; listeners = 7 ∷ [] }) ∷ []

one_open-IsValid : IsValid one_open
unfolding add insert lookup
one_open-IsValid = add-IsValid 10 hash 7 1 none_open one_open none_open-IsValid refl

abbrev success : TxResult
success = record {
  err = none;
  hash = hash;
  ledger_sequence = ℤ.pos 5;
  envelope_xdr = "AAAA";
  result_xdr = "AAAA";
  result_meta_xdr = "AAAA";
}

abbrev idle : System
idle = record { queues = Manager.new_manager; pending = one_open; tick_in_progress = false }

-- A network on which the transaction is new, its turn comes at once, and the core server takes it.
abbrev network : Outside
network = record {
  extract = λ env. inr (record { hash = hash; sequence = 5; source_address = "GA" });
  result_by_hash = λ k. failure no_results "";
  get = λ addresses. inr (("GA", 4) ∷ []);
  now = 20;
  meanwhile = λ s. s;
  waited = signalled none;
  submitter = λ env. none;
  decode = λ xdr. code_is_bad_seq false;
  result_again = λ k. failure no_results "";
  later = 21;
}

hash_length : (info : EnvelopeInfo) → network.extract "AAAA" ≡ inr info → len info.hash ≡ 64
hash_length info e = let same : info.hash ≡ hash = ground arith in rw same refl

submit_answers_example :
    owed (λ c. c == 9) (submit network 8 9 "AAAA" idle) ≡ listening (λ c. c == 9) one_open + 1
submit_answers_example =
    submit_answers network 8 9 "AAAA" idle (λ info e. hash_length info e) (λ s. refl)

abbrev reading : Reading
reading = record {
  get = λ addresses. inr [];
  result_by_hash = λ k. record success { hash = k };
  now = 40;
  clock = λ k. 40;
  submission_timeout = 30;
}

tick_pending-Ticked_example :
    Ticked reading one_open (tick_pending reading one_open).0 (tick_pending reading one_open).1
tick_pending-Ticked_example = tick_pending-Ticked reading one_open (λ k e. refl) one_open-IsValid

tick_conserves_example :
    (count (λ m. m.chan == 7) (tick reading idle).1.1
        + listening (λ c. c == 7) (tick reading idle).0.pending
      ≡ listening (λ c. c == 7) one_open)
    × (count (λ y. y.chan == 7) (tick reading idle).1.0
          + waiting (λ c. c == 7) (tick reading idle).0.queues
        ≡ waiting (λ c. c == 7) Manager.new_manager)
tick_conserves_example =
    tick_conserves reading idle (λ c. c == 7) (λ k e. refl) one_open-IsValid
      new_manager-IsBounded.valid
