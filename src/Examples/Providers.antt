-- ===== src/Examples/Providers.antt =====
-- A history database with one transaction and an empty core database.
use dfc_api.Base.{true, ◌≡◌, refl, none, String, inr}
use dfc_api.Base.Int.{ℤ}
use dfc_api.Submission.System.{is_final}
use dfc_api.Submission.Provider.{
  Row, found, no_rows, Databases, result_by_hash, from_history, tx_result_from_history,
}
use dfc_api.Submission.Provider.Laws.{IsReliable, result_by_hash-hash}

abbrev row_of : String → Row
row_of hash = record {
  transaction_hash = hash;
  ledger_sequence = ℤ.pos 7;
  envelope = "AAAA";
  result = "AAAA";
  meta = "AAAA";
}

abbrev databases : Databases
databases = record {
  history_latest = ℤ.pos 1000;
  history_transaction = λ hash. found (row_of hash);
  core_transaction_after = λ hash ledger. no_rows;
  decode_success = λ xdr. inr true;
  encode_error = λ row. none;
}

databases-IsReliable : IsReliable databases
databases-IsReliable = record {
  history = λ hash. refl;
  core = λ hash ledger. tt;
  encodes = λ row e h. absurd (cc);
}

result_by_hash-hash_example : (result_by_hash databases (λ row. true) "ab").hash ≡ "ab"
unfolding result_by_hash from_history tx_result_from_history is_final
result_by_hash-hash_example =
    result_by_hash-hash databases (λ row. true) "ab" databases-IsReliable refl
