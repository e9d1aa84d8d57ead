-- ===== src/Ingest/Effects/Signers.antt =====
-- The signer effects of an operation lead from the signers before it to those after it.
use package.text.Mathlib.TextEquality.{eq_iff}
use dfc_api.Base.{
  ltb, ◌^◌, ◌%◌, ◌≡◌, refl, sym, ap, ◌∙◌, Bool, true, false, not, ◌&&◌, Bool-cases, Option-cases,
  inl, inr, List, [], ◌∷◌, ◌++◌, Option, none, some, String, if◌then◌else◌, arith,
}
use dfc_api.Base.Int.{ℤ, pos, negsuc, int32}
use dfc_api.Base.Map.{
  lookup, insert, delete, lookup-insert, lookup-delete, Distinct, insert-Distinct,
}
use dfc_api.Xdr.{AccountId, Signer, AccountEntry, LedgerEntry, LedgerKey}
use dfc_api.Ingest.Outcome.{Outcome, done}
use dfc_api.Ingest.Effects.{
  text, integer, Details, EffectType, Effect, signer_created, signer_removed, signer_updated,
  same_weight, within, removed_or_updated, signers_created, signer_changes, add_signers,
  signer_summary, signers_of_entries, signer_effects, Loaded,
}

-- What a reader of one effect makes of the signers that it knew.
unfoldable pub replay_signer : EffectType → Details → List (String × ℤ) → List (String × ℤ)
replay_signer signer_removed ((name, text k) ∷ []) m = delete k m
replay_signer signer_updated ((name, text k) ∷ (other, integer w) ∷ []) m = insert k w m
replay_signer signer_created ((name, text k) ∷ (other, integer w) ∷ []) m = insert k w m
replay_signer kind details m = m

unfoldable pub replay_signers : List Effect → List (String × ℤ) → List (String × ℤ)
unfolding replay_signer
replay_signers [] m = m
replay_signers (e ∷ es) m = replay_signers es (replay_signer e.kind e.details m)

abbrev has {ℓ} : {A : Type ℓ} → Option A → Bool
has none = false
has (some a) = true

replay-append :
    (es fs : List Effect) (m : List (String × ℤ))
    → replay_signers (es ++ fs) m ≡ replay_signers fs (replay_signers es m)
unfolding replay_signers
replay-append [] fs m = refl
replay-append (e ∷ es) fs m = replay-append es fs (replay_signer e.kind e.details m)

same_weight-some : (w : ℤ) (o : Option ℤ) → same_weight w o ≡ true → o ≡ some w
unfolding same_weight
same_weight-some w none e = absurd cc
same_weight-some (pos n) (some (pos m)) e = ground arith
same_weight-some (pos n) (some (negsuc m)) e = ground arith
same_weight-some (negsuc n) (some (pos m)) e = ground arith
same_weight-some (negsuc n) (some (negsuc m)) e = ground arith

within-lookup :
    (x : String) (w : ℤ) (before after : List (String × ℤ))
    → within before after ≡ true
    → lookup x before ≡ some w
    → lookup x after ≡ some w
unfolding within lookup
within-lookup x w [] after e f = absurd cc
within-lookup x w ((k, v) ∷ before) after e f =
    ground (arith, eq_iff k x, within-lookup x w before after, same_weight-some v (lookup k after))

replay-removed :
    (source : AccountId) (x : String) (before after m : List (String × ℤ))
    → lookup x (replay_signers (removed_or_updated source before after) m)
      ≡ (if has (lookup x before) then lookup x after else lookup x m)
unfolding replay_signers removed_or_updated lookup
replay-removed source x [] after m = refl
replay-removed source x ((k, w) ∷ before) after m = elim (Option-cases (lookup k after)) [
  | inl gone ↦ rw gone (
      replay-removed source x before after (delete k m)
      ∙ ground (arith, eq_iff k x, lookup-delete k x m))
  | inr (v, kept) ↦ rw kept (
      replay-removed source x before after (insert k v m)
      ∙ ground (arith, eq_iff k x, lookup-insert k x v m))
]

replay-created :
    (source : AccountId) (x : String) (before after m : List (String × ℤ))
    → Distinct after
    → lookup x (replay_signers (signers_created source before after) m)
      ≡ (if has (lookup x after) && not (has (lookup x before)) then lookup x after else lookup x m)
unfolding replay_signers signers_created lookup
replay-created source x before [] m d = refl
replay-created source x before ((k, w) ∷ after) m d = elim (Option-cases (lookup k before)) [
  | inl new ↦ rw new (
      replay-created source x before after (insert k w m) d.1
      ∙ ground (arith, eq_iff k x, lookup-insert k x w m, d.0))
  | inr (v, old) ↦ rw old (replay-created source x before after m d.1 ∙ ground (arith, eq_iff k x))
]

add_signers-Distinct :
    (signers : List Signer) (m : List (String × ℤ)) → Distinct m → Distinct (add_signers signers m)
unfolding add_signers
add_signers-Distinct [] m d = d
add_signers-Distinct (s ∷ signers) m d =
    add_signers-Distinct signers (insert s.key (int32 (s.weight % 2 ^ 32)) m)
      (insert-Distinct s.key (int32 (s.weight % 2 ^ 32)) m d)

signer_summary-Distinct : (a : AccountEntry) → Distinct (signer_summary a)
unfolding signer_summary
signer_summary-Distinct a = elim (Bool-cases (ltb 0 a.master_weight)) [
  | inl weighs ↦ rw weighs (
      add_signers-Distinct a.signers ((a.account_id, pos a.master_weight) ∷ [])
        (unfold lookup in refl, tt))
  | inr none_left ↦ rw none_left (add_signers-Distinct a.signers [] tt)
]

settled :
    {A : Type 0} (b a : Option A) → (if has a && not (has b) then a else if has b then a else b) ≡ a
settled none none = refl
settled none (some a) = refl
settled (some b) none = refl
settled (some b) (some a) = refl

within-both :
    (x : String) (before after : List (String × ℤ))
    → within before after ≡ true
    → within after before ≡ true
    → lookup x before ≡ lookup x after
within-both x before after e f = elim (Option-cases (lookup x before)) [
  | inr (w, here) ↦ here ∙ sym (within-lookup x w before after e here)
  | inl gone ↦ elim (Option-cases (lookup x after)) [
    | inl away ↦ gone ∙ sym away
    | inr (v, there) ↦ absurd cc (gone, within-lookup x v after before f there)
  ]
]

replay-changes :
    (source : AccountId) (x : String) (before after : List (String × ℤ))
    → Distinct after
    → lookup x (replay_signers (signer_changes source before after) before) ≡ lookup x after
unfolding signer_changes
replay-changes source x before after d =
    elim (Bool-cases (within before after && within after before)) [
      | inl same ↦
          rw same
            (unfold replay_signers in within-both x before after (ground arith) (ground arith))
      | inr other ↦ rw other (
          ap (lookup x) (
            replay-append (removed_or_updated source before after)
              (signers_created source before after) before)
          ∙ (replay-created source x before after
                (replay_signers (removed_or_updated source before after) before) d
              ∙ (rw (replay-removed source x before after before)
                  (settled (lookup x before) (lookup x after)))))
    ]

-- Where the entries of an account before and after an operation are loaded and are accounts, the effects
-- of its signers, read back one after the other from the summary of the account before the operation,
-- give each address the weight of the summary after it.
pub replay-signer_effects :
    (load : LedgerKey → Outcome Loaded) (source : AccountId) (before after : AccountEntry)
    → load (LedgerKey.account source)
      ≡ done (some (LedgerEntry.account before), some (LedgerEntry.account after))
    → (es : List Effect) × (signer_effects load source ≡ done es)
      × ((x : String)
          → lookup x (replay_signers es (signer_summary before)) ≡ lookup x (signer_summary after))
unfolding signer_effects signers_of_entries
replay-signer_effects load source before after loaded = (
  signer_changes source (signer_summary before) (signer_summary after),
  rw (signer_effects, loaded) refl,
  λ x.
      replay-changes source x (signer_summary before) (signer_summary after)
        (signer_summary-Distinct after),
)
