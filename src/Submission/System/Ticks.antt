-- ===== src/Submission/System/Ticks.antt =====
-- A tick settles what it can and loses no listener.
use text.Mathlib.Text.{◌==◌}
use text.Mathlib.TextEquality.{eq_iff}
use dfc_api.Sequence.Item.{Signal}
use dfc_api.Sequence.Manager
use dfc_api.Sequence.Manager.{Manager}
use dfc_api.Sequence.Manager.Waiting.{waiting}
use dfc_api.Sequence.Manager.Answers.{update_conserves}
use dfc_api.Base.{
  ltb, length, Option-cases, sym, ◌⊎◌, ℕ, ◌+◌, ◌≡◌, refl, Bool, true, false, ◌||◌, ◌&&◌, List, [],
  ◌∷◌, none, some, String, arith, Bool-cases, count, count-append, inl, inr, if◌then◌else◌,
}
use dfc_api.Base.Map.{lookup, keys}
use dfc_api.Submission.Result.{Err, Sent, TxResult}
use dfc_api.Submission.OpenList.{OpenSubmission, Submissions, is_expired, clean, finish, pending}
use dfc_api.Submission.OpenList.Laws.{IsValid, listening, finish_conserves, finish-IsValid}
use dfc_api.Submission.OpenList.Cleaning.{is_stale, clean_lem}
use dfc_api.Submission.System.{System, refresh, tick, Reading, is_final, finish_each, tick_pending}

unfoldable member : String → List String → Bool
member k [] = false
member k (j ∷ js) = (j == k) || member k js

module _ (lookup_result : String → TxResult)
    (keyed : (k : String)
      → is_final (lookup_result k).err ≡ true
      → (lookup_result k).hash ≡ k) where
  finish_each_lem :
      (hashes : List String) (s : Submissions)
      → IsValid s
      → IsValid (finish_each lookup_result hashes s).0
        × ((p : ℕ → Bool)
            → count (λ m. p m.chan) (finish_each lookup_result hashes s).1
                + listening p (finish_each lookup_result hashes s).0
              ≡ listening p s)
        × ((k : String)
            → lookup k (finish_each lookup_result hashes s).0
              ≡ (if member k hashes && is_final (lookup_result k).err then none else lookup k s))
  unfolding finish_each member
  finish_each_lem [] s v = (v, λ p. omega arith, λ k. refl)
  finish_each_lem (hash ∷ hashes) s v =
      let r = lookup_result hash in
      elim (Bool-cases (is_final r.err)) [
        | inl final ↦
            let (conserved, all, gone) = finish_conserves r s v in
            let (v', conserved', gone') =
              finish_each_lem hashes (finish r s).0 (finish-IsValid r s v) in
            rw final (
              v',
              λ p. omega (
                arith,
                conserved p,
                conserved' p,
                count-append (λ (m : Sent). p m.chan) (finish r s).1
                    (finish_each lookup_result hashes (finish r s).0).1,
              ),
              λ k. ground (arith, gone k, gone' k, keyed hash final, eq_iff hash k),
            )
        | inr later ↦
            let (v', conserved', gone') = finish_each_lem hashes s v in
            rw later (v', conserved', λ k. ground (arith, gone' k, eq_iff hash k))
      ]

member-keys : (k : String) (s : Submissions) → member k (keys s) ≡ false → lookup k s ≡ none
unfolding member keys lookup
member-keys k [] h = refl
member-keys k ((j, os) ∷ s) h = ground (arith, member-keys k s)

-- What a tick leaves of the list: the submissions without a final result that are young enough.
pub record Ticked (t : Reading) (s s' : Submissions) (sent : List Sent) : Type 0 where
  pub valid : IsValid s'
  pub conserved : (p : ℕ → Bool) → count (λ m. p m.chan) sent + listening p s' ≡ listening p s
  pub left :
      (k : String) (os : OpenSubmission)
      → lookup k s' ≡ some os
      → (lookup k s ≡ some os)
        × (is_final (t.result_by_hash k).err ≡ false)
        × (is_expired t.submission_timeout (t.clock k) os ≡ false)
  pub waits :
      (k : String) (os : OpenSubmission)
      → lookup k s ≡ some os
      → is_final (t.result_by_hash k).err ≡ false
      → is_expired t.submission_timeout (t.clock k) os ≡ false
      → lookup k s' ≡ some os

-- Where final results carry the hash that they were asked for, a tick keeps exactly the open
-- submissions that have no final result and are not too old, and each listener that leaves the
-- list is answered once.
pub tick_pending-Ticked :
    (t : Reading) (s : Submissions)
    → ((k : String) → is_final (t.result_by_hash k).err ≡ true → (t.result_by_hash k).hash ≡ k)
    → IsValid s
    → Ticked t s (tick_pending t s).0 (tick_pending t s).1
unfolding tick_pending pending
tick_pending-Ticked t s keyed v =
    let s' = (finish_each t.result_by_hash (keys s) s).0 in
    let (v', conserved, found) = finish_each_lem t.result_by_hash keyed (keys s) s v in
    let (c, found') = clean_lem t.submission_timeout t.clock s' v' in
    record {
      valid = c.valid;
      conserved = λ p. omega (
        arith,
        conserved p,
        c.conserved p,
        count-append (λ (m : Sent). p m.chan) (finish_each t.result_by_hash (keys s) s).1
            (clean t.submission_timeout t.clock s').1.0,
      );
      left = λ k os e.
          let seen : lookup k s' ≡ some os = ground (arith, found' k, e) in
          let there : lookup k s ≡ some os = ground (arith, found k, seen) in
          (
            there,
            ground (arith, found k, seen, there, member-keys k s),
            (unfold is_stale in ground (arith, found' k, e, seen)),
          );
      waits = λ k os e f g.
          let a : lookup k s' ≡ some os = ground (arith, found k) in
          unfold is_stale in ground (arith, found' k, a);
    }

refresh_conserves :
    (t : Reading) (p : ℕ → Bool) (m : Manager) (out : Manager × List Signal)
    → Manager.Waiting.IsValid m
    → refresh t m ≡ some out
    → count (λ (y : Signal). p y.chan) out.1 + waiting p out.0 ≡ waiting p m
unfolding refresh
refresh_conserves t p m out v e = elim (Bool-cases (ltb 0 (length (Manager.addresses m)))) [
  | inl some_queue ↦ asked (t.get (Manager.addresses m)) refl some_queue
  | inr empty ↦
      let result : Path (Manager × List Signal) (m, []) out = ground arith in
      rw (sym result) (omega arith)
]
  where
    asked :
        (answer : Err ⊎ List (String × ℕ))
        → t.get (Manager.addresses m) ≡ answer
        → ltb 0 (length (Manager.addresses m)) ≡ true
        → count (λ (y : Signal). p y.chan) out.1 + waiting p out.0 ≡ waiting p m
    asked (inl why) got some_queue = ground arith
    asked (inr seqs) got some_queue =
        let result : Manager.update t.now seqs m ≡ out = ground arith in
        rw (sym result) (update_conserves p t.now seqs m v)

-- On every branch of a tick, a failing sequence lookup and a tick in progress included, the answers
-- that it sends and the listeners that it leaves are together the listeners there were, and the
-- signals that it sends and the entries that it leaves queued are the entries there were.
pub tick_conserves :
    (t : Reading) (sys : System) (p : ℕ → Bool)
    → ((k : String) → is_final (t.result_by_hash k).err ≡ true → (t.result_by_hash k).hash ≡ k)
    → IsValid sys.pending
    → Manager.Waiting.IsValid sys.queues
    → (count (λ m. p m.chan) (tick t sys).1.1 + listening p (tick t sys).0.pending
        ≡ listening p sys.pending)
      × (count (λ y. p y.chan) (tick t sys).1.0 + waiting p (tick t sys).0.queues
          ≡ waiting p sys.queues)
unfolding tick
tick_conserves t sys p keyed v w = elim (Bool-cases sys.tick_in_progress) [
  | inl busy ↦ rw (busy, tick) (omega arith, omega arith)
  | inr idle ↦ elim (Option-cases (refresh t sys.queues)) [
    | inl failed ↦ rw (idle, failed, tick) (omega arith, omega arith)
    | inr ((m, signals), got) ↦
        rw (idle, got, tick)
          (
            (tick_pending-Ticked t sys.pending keyed v).conserved p,
            refresh_conserves t p sys.queues (m, signals) w got,
          )
  ]
]
