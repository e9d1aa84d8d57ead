-- ===== src/Submission/OpenList/Laws.antt =====
-- The list as a bag of listeners under `Add` and `Finish`, and its invariant.
use Prim.Native.String.{len}
use text.Mathlib.Text.{◌==◌}
use text.Mathlib.TextEquality.{eq_iff}
use dfc_api.Base.{
  All, length-append, if◌then◌else◌, ℕ, ◌+◌, ◌<◌, ◌≡◌, refl, Bool, List, [], ◌∷◌, none, some,
  String, arith, Option-cases, length, count, count-append, of_bool, inl, inr,
}
use dfc_api.Base.Map.{
  lookup, insert, delete, total, total-insert_new, total-insert, total-delete, Distinct,
  insert-Entries, delete-Entries, Entries, lookup-delete, insert-Distinct, delete-Distinct,
}
use dfc_api.Submission.Result.{TxResult, Sent}
use dfc_api.Submission.OpenList.{
  OpenSubmission, Submissions, added, add, submission_of, with_listener, send_all, finish,
}

-- A submission in the map has listeners, its hash for a key, and a hash of 64 bytes.
pub record IsOpen (hash : String) (os : OpenSubmission) : Type 0 where
  pub keyed : os.hash ≡ hash
  pub hex : len hash ≡ 64
  pub heard : 0 < length os.listeners

pub record IsValid (s : Submissions) : Type 0 where
  pub distinct : Distinct s
  pub each : Entries IsOpen s

-- How many listeners on the channels that pass the test are registered.
abbrev pub listening_in : (ℕ → Bool) → OpenSubmission → ℕ
listening_in p os = count p os.listeners

unfoldable pub listening : (ℕ → Bool) → Submissions → ℕ
listening p s = total (listening_in p) s

-- A send to each listener, once.
pub count-send_all :
    (p : ℕ → Bool) (r : TxResult) (ls : List ℕ)
    → count (λ (m : Sent). p m.chan) (send_all r ls) ≡ count p ls
unfolding send_all
count-send_all p r [] = refl
count-send_all p r (l ∷ ls) = omega (arith, count-send_all p r ls)

-- What the submission of a hash holds, before and after an insertion into the map.
submission_of-listening :
    (f : OpenSubmission → ℕ) (now : ℕ) (hash : String) (os : OpenSubmission) (s : Submissions)
    → f (record { hash = hash; submitted_at = now; listeners = [] }) ≡ 0
    → total f (insert hash os s) + f (submission_of now hash s) ≡ total f s + f os
unfolding submission_of
submission_of-listening f now hash os s h = elim (Option-cases (lookup hash s)) [
  | inl e ↦ rw (e, submission_of) (omega (arith, total-insert_new f hash os s e))
  | inr (w, e) ↦ rw (e, submission_of) (total-insert f hash os w s e)
]

-- A buffered listener of a hash of 64 bytes is registered once, and no other is touched.
pub listening-add :
    (p : ℕ → Bool) (now : ℕ) (hash : String) (l capacity : ℕ) (s : Submissions)
    → 0 < capacity
    → len hash ≡ 64
    → (s' : Submissions) × (add now hash l capacity s ≡ added s')
      × (listening p s' ≡ listening p s + of_bool (p l))
unfolding listening add with_listener
listening-add p now hash l capacity s c h =
    let os = submission_of now hash s in
    (
      insert hash (with_listener l os) s,
      ground arith,
      omega (
        arith,
        submission_of-listening (listening_in p) now hash (with_listener l os) s refl,
        count-append p os.listeners (l ∷ []),
      ),
    )

pub sent-send_all : (r : TxResult) (ls : List ℕ) → All (λ m. m.result ≡ r) (send_all r ls)
unfolding send_all
sent-send_all r [] = tt
sent-send_all r (l ∷ ls) = (refl, sent-send_all r ls)

submission_of-IsOpen :
    (now : ℕ) (hash : String) (l : ℕ) (s : Submissions)
    → len hash ≡ 64
    → IsValid s
    → IsOpen hash (with_listener l (submission_of now hash s))
unfolding submission_of with_listener
submission_of-IsOpen now hash l s h v = elim (Option-cases (lookup hash s)) [
  | inl e ↦ rw (e, submission_of) (record { keyed = refl; hex = h; heard = omega arith })
  | inr (w, e) ↦
      rw (e, submission_of)
        (record {
          keyed = (v.each hash w e).keyed;
          hex = h;
          heard = omega (arith, length-append w.listeners (l ∷ []));
        })
]

-- `Add` keeps the list well formed, whenever it takes the listener.
pub add-IsValid :
    (now : ℕ) (hash : String) (l capacity : ℕ) (s s' : Submissions)
    → IsValid s
    → add now hash l capacity s ≡ added s'
    → IsValid s'
unfolding add
add-IsValid now hash l capacity s s' v e =
    let os = with_listener l (submission_of now hash s) in
    let hex : len hash ≡ 64 = ground arith in
    let result : s' ≡ insert hash os s = ground arith in
    rw result (record {
      distinct = insert-Distinct hash os s v.distinct;
      each = insert-Entries IsOpen hash os s (submission_of-IsOpen now hash l s hex v) v.each;
    })

pub delete-IsValid : (k : String) (s : Submissions) → IsValid s → IsValid (delete k s)
delete-IsValid k s v = record {
  distinct = delete-Distinct k s v.distinct;
  each = delete-Entries IsOpen k s v.each;
}

-- Deleting a submission takes out its listeners and no others.
pub listening-delete :
    (p : ℕ → Bool) (k : String) (os : OpenSubmission) (s : Submissions)
    → IsValid s
    → lookup k s ≡ some os
    → listening p (delete k s) + count p os.listeners ≡ listening p s
unfolding listening
listening-delete p k os s v e = total-delete (listening_in p) k os s v.distinct e

pub finish-IsValid : (r : TxResult) (s : Submissions) → IsValid s → IsValid (finish r s).0
unfolding finish
finish-IsValid r s v = elim (Option-cases (lookup r.hash s)) [
  | inl e ↦ rw (e, finish) v
  | inr (os, e) ↦ rw (e, finish) (delete-IsValid r.hash s v)
]

-- `Finish` sends its result once to each listener of its hash, which is no longer open, and keeps
-- every other submission.
pub finish_conserves :
    (r : TxResult) (s : Submissions)
    → IsValid s
    → ((p : ℕ → Bool)
        → count (λ m. p m.chan) (finish r s).1 + listening p (finish r s).0 ≡ listening p s)
      × All (λ m. m.result ≡ r) (finish r s).1
      × ((k : String) → lookup k (finish r s).0 ≡ (if r.hash == k then none else lookup k s))
unfolding finish
finish_conserves r s v = elim (Option-cases (lookup r.hash s)) [
  | inl e ↦ rw (e, finish) (λ p. omega arith, tt, λ k. ground (arith, eq_iff r.hash k))
  | inr (os, e) ↦
      rw (e, finish)
        (
          λ p. omega (arith, count-send_all p r os.listeners, listening-delete p r.hash os s v e),
          sent-send_all r os.listeners,
          λ k. lookup-delete r.hash k s,
        )
]
