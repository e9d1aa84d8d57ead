-- ===== src/Submission/Result.antt =====
-- services/horizon/internal/txsub/main.go and errors.go: results, errors and the submitter's answers.
-- A channel of results is known by its number; what is sent on it is listed as a `Sent`.
use dfc_api.Base.{ℕ, Bool, false, Option, some, String}
use dfc_api.Base.Int.{ℤ}

-- `failed` is a FailedTransactionError with its result XDR, `malformed` a MalformedTransactionError
-- with its envelope. `no_more_room` is sequence.ErrNoMoreRoom, and `other` any other error.
pub data Err : Type 0 where
  no_results canceled timeout : Err
  failed malformed : String → Err
  no_more_room : Err
  other : String → Err

unfoldable pub err_bad_sequence : Err
err_bad_sequence = failed "AAAAAAAAAAD////7AAAAAA=="

unfoldable pub err_no_account : Err
err_no_account = failed "AAAAAAAAAAD////4AAAAAA=="

pub record TxResult : Type 0 where
  pub err : Option Err
  pub hash : String
  pub ledger_sequence : ℤ  -- int32
  pub envelope_xdr : String
  pub result_xdr : String
  pub result_meta_xdr : String

-- A result that has an error and, maybe, the envelope it is about.
unfoldable pub failure : Err → String → TxResult
failure e env = record {
  err = some e;
  hash = "";
  ledger_sequence = ℤ.pos 0;
  envelope_xdr = env;
  result_xdr = "";
  result_meta_xdr = "";
}

-- `l <- r; close(l)`.
pub record Sent : Type 0 where
  pub chan : ℕ
  pub result : TxResult

-- The answer of a decoder of result XDR: an error, or whether the code is txBAD_SEQ.
pub data Decoded : Type 0 where
  undecodable : Err → Decoded
  code_is_bad_seq : Bool → Decoded

-- SubmissionResult.IsBadSeq on the error of a submission, with the XDR decoder as a parameter.
unfoldable pub is_bad_seq : (String → Decoded) → Option Err → Decoded
is_bad_seq decode (some (failed xdr)) = decode xdr
is_bad_seq decode _ = code_is_bad_seq false
