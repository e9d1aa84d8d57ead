-- ===== src/Submission/Provider.antt =====
-- services/horizon/internal/txsub/results/db/main.go: results by hash, from the history database and
-- then from the core database; and services/horizon/internal/txsub/submitter.go: what a response of
-- the core server means. The queries, the XDR codec and the server are parameters.
pub mod Laws
use Prim.Native.String.{◌++◌}
use text.Mathlib.Text.{◌==◌}
use dfc_api.Base.{
  ℕ, ◌^◌, Bool, true, false, ◌||◌, Option, none, some, String, ◌⊎◌, inl, inr, if◌then◌else◌,
}
use dfc_api.Base.Int.{ℤ, ◌-ℤ◌, pos, int32, wrap}
use dfc_api.Submission.Result.{Err, no_results, failed, other, TxResult, failure}

-- A row of the history database, or of the core database with its result and meta in base64.
pub record Row : Type 0 where
  pub transaction_hash : String
  pub ledger_sequence : ℤ  -- int32
  pub envelope : String
  pub result : String
  pub meta : String

-- What a query answers: a row, no rows, or another error.
pub data Queried : Type 0 where
  found : Row → Queried
  no_rows : Queried
  query_error : Err → Queried

pub record Databases : Type 0 where
  pub history_latest : ℤ  -- int32
  pub history_transaction : String → Queried
  pub core_transaction_after : String → ℤ → Queried
  -- An error of the decoder, or whether the code of the result is txSUCCESS.
  pub decode_success : String → Err ⊎ Bool
  -- The error of encoding the core's result again, if there is one.
  pub encode_error : Row → Option Err

unfoldable pub result_of_row : Option Err → Row → TxResult
result_of_row e row = record {
  err = e;
  hash = row.transaction_hash;
  ledger_sequence = row.ledger_sequence;
  envelope_xdr = row.envelope;
  result_xdr = row.result;
  result_meta_xdr = row.meta;
}

unfoldable pub history_error : Err ⊎ Bool → String → Option Err
history_error (inl e) xdr = some e
history_error (inr true) xdr = none
history_error (inr false) xdr = some (failed xdr)

unfoldable pub tx_result_from_history : Databases → Row → TxResult
unfolding result_of_row history_error
tx_result_from_history d row =
    result_of_row (history_error (d.decode_success row.result) row.result) row

-- `is_success` is whether the code of the row's result is txSUCCESS.
unfoldable pub tx_result_from_core : Databases → (Row → Bool) → Row → TxResult
unfolding result_of_row
tx_result_from_core d is_success row = elim (d.encode_error row) [
  | some e ↦ failure e ""
  | none ↦
      if is_success row
      then result_of_row none row
      else result_of_row (some (failed row.result)) row
]

unfoldable pub from_core : Databases → (Row → Bool) → Queried → TxResult
unfolding tx_result_from_core
from_core d is_success (found row) = tx_result_from_core d is_success row
from_core d is_success no_rows = failure no_results ""
from_core d is_success (query_error e) = failure e ""

unfoldable pub from_history : Databases → (Row → Bool) → String → Queried → TxResult
unfolding tx_result_from_history from_core
from_history d is_success hash (found row) = tx_result_from_history d row
from_history d is_success hash (query_error e) = failure e ""
from_history d is_success hash no_rows =
    from_core d is_success
      (d.core_transaction_after hash (int32 (wrap (2 ^ 32) (d.history_latest -ℤ pos 120))))

unfoldable pub result_by_hash : Databases → (Row → Bool) → String → TxResult
unfolding from_history
result_by_hash d is_success hash = from_history d is_success hash (d.history_transaction hash)

-- The part of a response of the core server that is read.
pub record CoreResponse : Type 0 where
  pub exception : String
  pub error : String
  pub status : String

-- `none` is a transaction that is or will be considered.
unfoldable pub read_status : CoreResponse → Option Err
read_status r =
    if r.status == "ERROR"
    then some (failed r.error)
    else if (r.status == "PENDING") || (r.status == "DUPLICATE")
    then none
    else some (other ("Unrecognized dfc-core status response: " ++ r.status))

-- The message of an error of the call, or its response.
unfoldable pub read_response : String ⊎ CoreResponse → Option Err
unfolding read_status
read_response (inl message) = some (other ("failed to submit: " ++ message))
read_response (inr r) =
    if r.exception == ""
    then read_status r
    else some (other ("dfc-core exception: " ++ r.exception))
