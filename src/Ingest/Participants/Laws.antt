-- ===== src/Ingest/Participants/Laws.antt =====
-- The participants are a set: each account that takes part is named once, and no other.
use text.Mathlib.Text.{◌==◌}
use text.Mathlib.TextEquality.{eq_iff}
use dfc_api.Base.{
  ℕ, ◌≡◌, refl, ◌∙◌, ap, Bool, true, false, ◌||◌, List, [], ◌∷◌, ◌++◌, Option, none, some, String,
  count, of_bool, arith, Bool-cases, inl, inr,
}
use dfc_api.Base.Map.{lookup, insert, keys, lookup-insert, Distinct, insert-Distinct}
use dfc_api.Xdr.{
  AccountId, LedgerEntry, LedgerKey, LedgerEntryChange, created, updated, state, removed,
  TransactionMeta, v0, v1,
}
use dfc_api.Xdr.Operation.{Operation, Transaction}
use dfc_api.Ingest.Participants.{
  collect, dedupe, or_source, body_participants, for_operation, for_ledger_entry, for_ledger_key,
  for_change, cons_some, for_changes, for_metas, for_meta, for_operations, for_transaction,
}

-- How often a list names an account.
abbrev pub named : String → List String → ℕ
named x ids = count (λ y. y == x) ids

unfoldable pub contains : String → List String → Bool
contains x [] = false
contains x (y ∷ ys) = y == x || contains x ys

abbrev held {ℓ} : {A : Type ℓ} → Option A → Bool
held none = false
held (some a) = true

-- The changes that carry an account entry, or its key, of `x`.
unfoldable pub is_account_change : String → LedgerEntryChange → Bool
is_account_change x (created (LedgerEntry.account a)) = a.account_id == x
is_account_change x (updated (LedgerEntry.account a)) = a.account_id == x
is_account_change x (state (LedgerEntry.account a)) = a.account_id == x
is_account_change x (removed (LedgerKey.account a)) = a == x
is_account_change x c = false

unfoldable pub any {ℓ} : {A : Type ℓ} → (A → Bool) → List A → Bool
any p [] = false
any p (a ∷ l) = p a || any p l

unfoldable pub takes_part_in_operation : String → AccountId → Operation → Bool
unfolding or_source contains body_participants
takes_part_in_operation x source op =
    or_source op.source_account source == x || contains x (body_participants op.body)

-- A meta of version 1 counts for nothing.
unfoldable pub takes_part : String → Transaction → Bool
unfolding is_account_change any takes_part_in_operation
takes_part x tx =
    tx.source_account == x
    || (elim tx.result_meta [ v0 ops ↦ any (any (is_account_change x)) ops | v1 t ops ↦ false ]
        || (any (is_account_change x) tx.fee_changes
            || any (takes_part_in_operation x tx.source_account) tx.operations))

held-insert :
    (x key : String) (set : List (String × String))
    → held (lookup x (insert key key set)) ≡ (key == x || held (lookup x set))
held-insert x key set = ground (arith, lookup-insert key x key set)

keys-named :
    (x : String) (set : List (String × String))
    → Distinct set
    → named x (keys set) ≡ of_bool (held (lookup x set))
unfolding keys lookup
keys-named x [] d = refl
keys-named x ((y, v) ∷ set) d = ground (arith, eq_iff y x, keys-named x set d.1, d.0)

collect-held :
    (x : String) (ids : List String) (set : List (String × String))
    → held (lookup x (collect ids set)) ≡ (contains x ids || held (lookup x set))
unfolding collect contains
collect-held x [] set = refl
collect-held x (id ∷ ids) set =
    ground (arith, collect-held x ids (insert id id set), held-insert x id set)

collect-Distinct :
    (ids : List String) (set : List (String × String)) → Distinct set → Distinct (collect ids set)
unfolding collect
collect-Distinct [] set d = d
collect-Distinct (id ∷ ids) set d =
    collect-Distinct ids (insert id id set) (insert-Distinct id id set d)

-- What `dedupe` gives: every element of its list once.
pub named-dedupe :
    (x : String) (ids : List String) → named x (dedupe ids) ≡ of_bool (contains x ids)
unfolding dedupe
named-dedupe x ids =
    keys-named x (collect ids []) (collect-Distinct ids [] tt)
    ∙ ap of_bool (unfold lookup in ground (arith, collect-held x ids []))

contains-append :
    (x : String) (a b : List String) → contains x (a ++ b) ≡ (contains x a || contains x b)
unfolding contains
contains-append x [] b = refl
contains-append x (y ∷ a) b = ground (arith, contains-append x a b)

contains-cons_some :
    (x : String) (o : Option String) (l : List String)
    → contains x (cons_some o l) ≡ (contains x (cons_some o []) || contains x l)
unfolding contains cons_some
contains-cons_some x none l = refl
contains-cons_some x (some a) l = ground arith

contains-for_change :
    (x : String) (c : LedgerEntryChange)
    → contains x (cons_some (for_change c) []) ≡ is_account_change x c
unfolding contains cons_some for_change for_ledger_entry for_ledger_key is_account_change
contains-for_change x (created (LedgerEntry.account a)) = ground arith
contains-for_change x (created (LedgerEntry.trust_line a)) = refl
contains-for_change x (created (LedgerEntry.offer a)) = refl
contains-for_change x (created (LedgerEntry.data_entry a)) = refl
contains-for_change x (updated (LedgerEntry.account a)) = ground arith
contains-for_change x (updated (LedgerEntry.trust_line a)) = refl
contains-for_change x (updated (LedgerEntry.offer a)) = refl
contains-for_change x (updated (LedgerEntry.data_entry a)) = refl
contains-for_change x (state (LedgerEntry.account a)) = ground arith
contains-for_change x (state (LedgerEntry.trust_line a)) = refl
contains-for_change x (state (LedgerEntry.offer a)) = refl
contains-for_change x (state (LedgerEntry.data_entry a)) = refl
contains-for_change x (removed (LedgerKey.account a)) = ground arith
contains-for_change x (removed (LedgerKey.trust_line a c)) = refl
contains-for_change x (removed (LedgerKey.offer a c)) = refl
contains-for_change x (removed (LedgerKey.data_entry a c)) = refl

contains-for_changes :
    (x : String) (cs : List LedgerEntryChange)
    → contains x (for_changes cs) ≡ any (is_account_change x) cs
unfolding for_changes any
contains-for_changes x [] = unfold contains in refl
contains-for_changes x (c ∷ cs) =
    rw
      (
        contains-cons_some x (for_change c) (for_changes cs),
        contains-for_change x c,
        contains-for_changes x cs,
      )
      refl

contains-for_metas :
    (x : String) (ops : List (List LedgerEntryChange))
    → contains x (for_metas ops) ≡ any (any (is_account_change x)) ops
unfolding for_metas any
contains-for_metas x [] = unfold contains in refl
contains-for_metas x (op ∷ ops) =
    rw
      (
        contains-append x (for_changes op) (for_metas ops),
        contains-for_changes x op,
        contains-for_metas x ops,
      )
      refl

none-named : (x : String) (l : List String) → named x l ≡ 0 → contains x l ≡ false
unfolding contains
none-named x [] e = refl
none-named x (y ∷ l) e = elim (Bool-cases (y == x)) [
  | inl same ↦ absurd (ground arith)
  | inr other ↦ ground (arith, none-named x l)
]

-- A list that names an account once or not at all.
contains-named :
    (x : String) (l : List String) (b : Bool) → named x l ≡ of_bool b → contains x l ≡ b
unfolding contains
contains-named x l false e = none-named x l e
contains-named x [] true e = absurd (omega arith)
contains-named x (y ∷ l) true e = elim (Bool-cases (y == x)) [
  | inl same ↦ rw same refl
  | inr other ↦ ground (arith, contains-named x l true)
]

-- The participants of an operation: its source and its one counterparty, each once.
pub named-for_operation :
    (x : String) (source : AccountId) (op : Operation)
    → named x (for_operation source op) ≡ of_bool (takes_part_in_operation x source op)
unfolding for_operation takes_part_in_operation
named-for_operation x source op =
    named-dedupe x (or_source op.source_account source ∷ body_participants op.body)
    ∙ ap of_bool (unfold contains in refl)

contains-for_operations :
    (x : String) (source : AccountId) (ops : List Operation)
    → contains x (for_operations source ops) ≡ any (takes_part_in_operation x source) ops
unfolding for_operations any
contains-for_operations x source [] = unfold contains in refl
contains-for_operations x source (op ∷ ops) =
    rw
      (
        contains-append x (for_operation source op) (for_operations source ops),
        contains-for_operations x source ops,
        contains-named x (for_operation source op) (takes_part_in_operation x source op)
            (named-for_operation x source op),
      )
      refl

contains-for_meta :
    (x : String) (m : TransactionMeta)
    → contains x (for_meta m)
      ≡ elim m [ v0 ops ↦ any (any (is_account_change x)) ops | v1 t ops ↦ false ]
unfolding for_meta
contains-for_meta x (v0 ops) = contains-for_metas x ops
contains-for_meta x (v1 t ops) = unfold contains in refl

-- The participants of a transaction, each once: its source, the accounts in the fee changes and in
-- those of a version 0 meta, and the participants of its operations.
pub named-for_transaction :
    (x : String) (tx : Transaction) → named x (for_transaction tx) ≡ of_bool (takes_part x tx)
unfolding for_transaction takes_part
named-for_transaction x tx =
    let mine = named-dedupe x (
      tx.source_account
      ∷ (for_meta tx.result_meta
          ++ (for_changes tx.fee_changes ++ for_operations tx.source_account tx.operations))) in
    let changed = for_changes tx.fee_changes in
    let operating = for_operations tx.source_account tx.operations in
    mine
    ∙ ap of_bool (
        rw
          (
            contains-append x (for_meta tx.result_meta) (changed ++ operating),
            contains-append x changed operating,
            contains-for_meta x tx.result_meta,
            contains-for_changes x tx.fee_changes,
            contains-for_operations x tx.source_account tx.operations,
          )
          refl)
