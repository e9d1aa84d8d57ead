-- ===== src/Submission/System/Answers.antt =====
-- Every call of `Submit` answers its channel once, or leaves it registered.
use Prim.Native.String.{len}
use dfc_api.Base.{◌⊎◌, ℕ, ◌+◌, ◌≡◌, refl, Bool, List, String, arith, ◌==◌, count, inl, inr, of_bool}
use dfc_api.Submission.OpenList.Laws.{listening, listening-add}
use dfc_api.Sequence.Item.{Signal}
use dfc_api.Submission.Result.{Sent, TxResult}
use dfc_api.Submission.System.{
  check_result, current_sequence, known_account, answer, System, EnvelopeInfo, Outside, Part, stop,
  go, check, await, kept, settle, enqueue, submit,
}

-- The answers on the channels that pass the test, and the registrations that are left for them.
abbrev pub owed : (ℕ → Bool) → System × (List Signal × List Sent) → ℕ
owed p out = count (λ m. p m.chan) out.1.1 + listening p out.0.pending

settle-owed :
    (p : ℕ → Bool) (o : Outside) (response : ℕ) (info : EnvelopeInfo) (part : Part (Unit {0}))
    (sys : System)
    → len info.hash ≡ 64
    → owed p (settle o response info part sys) ≡ listening p sys.pending + of_bool (p response)
unfolding settle kept
settle-owed p o response info (stop r) sys hex = omega arith
settle-owed p o response info (go x) sys hex =
    let (s', taken, more) =
      listening-add p o.later info.hash response 1 sys.pending (omega arith) hex in
    rw (taken, kept) (omega (arith, more))

enqueue-pending :
    (o : Outside) (chan : ℕ) (info : EnvelopeInfo) (seqs : List (String × ℕ)) (sys : System)
    → (enqueue o chan info seqs sys).0.pending ≡ sys.pending
unfolding enqueue
enqueue-pending o chan info seqs sys = refl

-- A call that goes on is about the transaction that was extracted.
check-go :
    (o : Outside) (env : String) (info : EnvelopeInfo) (seqs : List (String × ℕ))
    → check o env ≡ go (info, seqs)
    → o.extract env ≡ inr info
unfolding check check_result current_sequence known_account
check-go o env info seqs h = ground arith

Part-cases : {A : Type 0} (x : Part A) → ((r : TxResult) × (x ≡ stop r)) ⊎ ((a : A) × (x ≡ go a))
Part-cases (stop r) = inl (r, refl)
Part-cases (go a) = inr (a, refl)

-- Where hashes have 64 bytes and no other call registers the channel of this one, a call of
-- `Submit` that ends adds one to the answers on its channel and the registrations of it, together.
pub submit_answers :
    (o : Outside) (chan response : ℕ) (env : String) (sys : System)
    → ((info : EnvelopeInfo) → o.extract env ≡ inr info → len info.hash ≡ 64)
    → ((s : System)
        → listening (λ c. c == response) (o.meanwhile s).pending
          ≡ listening (λ c. c == response) s.pending)
    → owed (λ c. c == response) (submit o chan response env sys)
      ≡ listening (λ c. c == response) sys.pending + 1
unfolding submit
submit_answers o chan response env sys hex own = elim (Part-cases (check o env)) [
  | inl (r, e) ↦ rw (e, submit) (unfold answer in ground arith)
  | inr ((info, seqs), e) ↦
      let queued = (enqueue o chan info seqs sys).0 in
      rw (e, submit)
        (ground (
          arith,
          own queued,
          settle-owed (λ c. c == response) o response info (await o env info o.waited)
              (o.meanwhile queued) (hex info (check-go o env info seqs e)),
        ))
]
