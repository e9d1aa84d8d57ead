-- ===== src/Submission/OpenList/Cleaning.antt =====
-- `Clean` takes out the submissions that are too old and tells their listeners so.
use text.Mathlib.Text.{◌==◌}
use text.Mathlib.TextEquality.{eq_iff}
use dfc_api.Base.{
  ℕ, ◌+◌, ◌≡◌, refl, Bool, true, false, List, [], ◌∷◌, Option, none, some, String, arith,
  Bool-cases, All, All-append, count, count-append, inl, inr, if◌then◌else◌,
}
use dfc_api.Base.Map.{lookup, delete, Distinct, lookup-delete}
use dfc_api.Submission.Result.{Sent, failure, timeout}
use dfc_api.Submission.OpenList.{
  OpenSubmission, Submissions, send_all, is_expired, clean_each, clean,
}
use dfc_api.Submission.OpenList.Laws.{
  IsValid, listening, delete-IsValid, listening-delete, count-send_all, sent-send_all,
}

-- Whether an entry that may be there is too old.
unfoldable pub is_stale : ℕ → ℕ → Option OpenSubmission → Bool
is_stale max_age now none = false
is_stale max_age now (some os) = is_expired max_age now os

-- Every listener that leaves the list `s` for `s'` is told of the timeout, once.
pub record Cleaned (s s' : Submissions) (sent : List Sent) : Type 0 where
  pub valid : IsValid s'
  pub conserved : (p : ℕ → Bool) → count (λ m. p m.chan) sent + listening p s' ≡ listening p s
  pub timed_out : All (λ m. m.result ≡ failure timeout "") sent

module _ (max_age : ℕ) (now : String → ℕ) where
  -- The map still has every entry that the loop has yet to visit.
  abbrev Pending : Submissions → Submissions → Type 0
  Pending entries s =
      (k : String) (os : OpenSubmission) → lookup k entries ≡ some os → lookup k s ≡ some os

  first_there :
      (k : String) (os : OpenSubmission) (entries s : Submissions)
      → Pending ((k, os) ∷ entries) s
      → lookup k s ≡ some os
  first_there k os entries s h = h k os (unfold lookup in ground (arith, eq_iff k k))

  rest_there :
      (k : String) (os : OpenSubmission) (entries s : Submissions)
      → Distinct ((k, os) ∷ entries)
      → Pending ((k, os) ∷ entries) s
      → Pending entries s
  unfolding lookup
  rest_there k os entries s d h j w e = ground (arith, eq_iff k j, h j w)

  deleted_there :
      (k : String) (entries s : Submissions)
      → lookup k entries ≡ none
      → Pending entries s
      → Pending entries (delete k s)
  deleted_there k entries s d h j w e = ground (arith, eq_iff k j, h j w e, lookup-delete k j s)

  -- The entry that the loop visits, and those it has yet to visit.
  is_stale_head :
      (j k : String) (os : OpenSubmission) (entries : Submissions)
      → lookup k entries ≡ none
      → (is_stale max_age (now j) (lookup j ((k, os) ∷ entries)) ≡ (
          if k == j
          then is_expired max_age (now k) os
          else is_stale max_age (now j) (lookup j entries)))
        × ((k == j) ≡ true → is_stale max_age (now j) (lookup j entries) ≡ false)
  unfolding lookup is_stale
  is_stale_head j k os entries d = (ground (arith, eq_iff k j), λ e. ground (arith, eq_iff k j))

  clean_each_lem :
      (entries s : Submissions)
      → IsValid s
      → Distinct entries
      → Pending entries s
      → Cleaned s (clean_each max_age now entries s).0 (clean_each max_age now entries s).1
        × ((k : String)
            → lookup k (clean_each max_age now entries s).0
              ≡ (if is_stale max_age (now k) (lookup k entries) then none else lookup k s))
  unfolding clean_each
  clean_each_lem [] s v d h = (
    record { valid = v; conserved = λ p. omega arith; timed_out = tt },
    λ k. unfold lookup is_stale in refl,
  )
  clean_each_lem ((k, os) ∷ entries) s v d h =
      let there = first_there k os entries s h in
      let keyed : os.hash ≡ k = (v.each k os there).keyed in
      let left = rest_there k os entries s d h in
      elim (Bool-cases (is_expired max_age (now k) os)) [
        | inl old ↦
            let (c, found) =
              clean_each_lem entries (delete k s) (delete-IsValid k s v) d.1
                (deleted_there k entries s d.0 left) in
            rw (old, keyed)
              (
                record {
                  valid = c.valid;
                  conserved = λ p. omega (
                    arith,
                    c.conserved p,
                    listening-delete p k os s v there,
                    count-send_all p (failure timeout "") os.listeners,
                    count-append (λ (m : Sent). p m.chan)
                        (send_all (failure timeout "") os.listeners)
                        (clean_each max_age now entries (delete k s)).1,
                  );
                  timed_out = All-append _ _ _ (sent-send_all _ os.listeners) c.timed_out;
                },
                λ j. ground (arith, found j, is_stale_head j k os entries d.0, lookup-delete k j s),
              )
        | inr young ↦
            let (c, found) = clean_each_lem entries s v d.1 left in
            rw young (c, λ j. ground (arith, found j, is_stale_head j k os entries d.0))
      ]

  -- From a well-formed list, `Clean` drops exactly the submissions that are too old when it looks
  -- at them, and tells each of their listeners once of the timeout.
  pub clean_lem :
      (s : Submissions)
      → IsValid s
      → Cleaned s (clean max_age now s).0 (clean max_age now s).1.0
        × ((k : String)
            → lookup k (clean max_age now s).0
              ≡ (if is_stale max_age (now k) (lookup k s) then none else lookup k s))
  unfolding clean
  clean_lem s v = let (c, found) = clean_each_lem s s v v.distinct (λ k os e. e) in (c, found)
