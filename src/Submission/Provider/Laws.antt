-- ===== src/Submission/Provider/Laws.antt =====
-- The provider of results keeps what `Tick` relies on: a final result carries the hash asked for.
use dfc_api.Base.{
  ap, ◌∙◌, sym, Bool, true, false, ◌≡◌, refl, some, String, inl, inr, arith, Option-cases,
  Bool-cases,
}
use dfc_api.Base.Int.{ℤ}
use dfc_api.Submission.Result.{Err, failure}
use dfc_api.Submission.System.{is_final}
use dfc_api.Submission.Provider.{
  Row, Queried, found, no_rows, query_error, Databases, result_of_row, tx_result_from_history,
  tx_result_from_core, from_core, from_history, result_by_hash,
}

-- A row is about the hash that it was asked for, and an error is not that of a failed transaction.
abbrev pub Answers : String → Queried → Type 0
Answers hash (found row) = row.transaction_hash ≡ hash
Answers hash no_rows = Unit
Answers hash (query_error e) = is_final (some e) ≡ false

-- What the databases and the encoder are relied on for.
pub record IsReliable (d : Databases) : Type 0 where
  pub history : (hash : String) → Answers hash (d.history_transaction hash)
  pub core : (hash : String) (ledger : ℤ) → Answers hash (d.core_transaction_after hash ledger)
  pub encodes : (row : Row) (e : Err) → d.encode_error row ≡ some e → is_final (some e) ≡ false

from_core-hash :
    (d : Databases) (is_success : Row → Bool) (hash : String) (q : Queried)
    → IsReliable d
    → Answers hash q
    → is_final (from_core d is_success q).err ≡ true
    → (from_core d is_success q).hash ≡ hash
unfolding from_core tx_result_from_core result_of_row failure is_final
from_core-hash d is_success hash (found row) v a h = elim (Option-cases (d.encode_error row)) [
  | inl e ↦ elim (Bool-cases (is_success row)) [
    | inl good ↦ rw (e, good, from_core, tx_result_from_core) a
    | inr bad ↦ rw (e, bad, from_core, tx_result_from_core) a
  ]
  | inr (w, e) ↦
      let same : (from_core d is_success (found row)).err ≡ some w =
        rw (e, from_core, tx_result_from_core) refl in
      let not_final = v.encodes row w e in
      let final : is_final (some w) ≡ true = ap is_final (sym same) ∙ h in absurd (cc)
]
from_core-hash d is_success hash no_rows v a h = absurd (ground arith)
from_core-hash d is_success hash (query_error e) v a h = absurd (cc)

from_history-hash :
    (d : Databases) (is_success : Row → Bool) (hash : String) (q : Queried)
    → IsReliable d
    → Answers hash q
    → is_final (from_history d is_success hash q).err ≡ true
    → (from_history d is_success hash q).hash ≡ hash
unfolding from_history tx_result_from_history result_of_row failure
from_history-hash d is_success hash (found row) v a h = a
from_history-hash d is_success hash no_rows v a h =
    from_core-hash d is_success hash _ v (v.core hash _) h
from_history-hash d is_success hash (query_error e) v a h = absurd (cc)

-- Where the databases answer with rows of the hash that they are asked for, and fail with errors
-- other than those of failed transactions, a final result carries the hash that was asked for.
pub result_by_hash-hash :
    (d : Databases) (is_success : Row → Bool) (hash : String)
    → IsReliable d
    → is_final (result_by_hash d is_success hash).err ≡ true
    → (result_by_hash d is_success hash).hash ≡ hash
unfolding result_by_hash
result_by_hash-hash d is_success hash v h =
    from_history-hash d is_success hash (d.history_transaction hash) v (v.history hash) h
