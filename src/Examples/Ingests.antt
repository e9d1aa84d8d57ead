-- ===== src/Examples/Ingests.antt =====
-- Ledgers of one transaction, with a payment of `GA` to `GB`, in databases that never fail.
use dfc_api.Base.{
  String, ℕ, ◌≡◌, refl, true, false, List, [], ◌∷◌, ◌++◌, none, some, arith, of_bool,
}
use dfc_api.Base.Int.{ℤ, pos, ◌+ℤ◌}
use dfc_api.Toid.{new, to_int64}
use dfc_api.Ingest.Details.{operation_details}
use dfc_api.Ingest.Effects.Body.{ingest_effects}
use dfc_api.Xdr.{AccountEntry, LedgerEntry, LedgerKey, Signer, native, v0}
use dfc_api.Xdr.Operation.{OperationBody, OperationResult, Transaction}
use dfc_api.Ingest.Outcome.{Outcome, done}
use dfc_api.Ingest.Cursor.{
  Cursor, LedgerBundle, new_cursor, ledger_range, transaction_id, operation_id,
}
use dfc_api.Ingest.Cursor.Iteration.{visited, visited_lem, up}
use dfc_api.Ingest.Participants.{for_transaction}
use dfc_api.Ingest.Participants.Laws.{named, takes_part, named-for_transaction}
use dfc_api.Ingest.Effects.{Effect, Loaded, signer_effects, signer_summary}
use dfc_api.Ingest.Effects.Signers.{replay_signers, replay-signer_effects}
use dfc_api.Base.Map.{lookup}
use dfc_api.Ingest.Session.{Row, row_id, ledger_row, World, Config, ingest_ledger}
use dfc_api.Ingest.Session.Run.{Report, clear_ledger, run}
use dfc_api.Ingest.Session.Atomic.{Atomic}
use dfc_api.Ingest.Session.Complete.{range_of, run_lem}
use dfc_api.Ingest.Session.Again.{clear_ledger-ingest_ledger}

abbrev payment : Transaction
payment = record {
  transaction_hash = "h";
  source_account = "GA";
  operations =
      record { source_account = none; body = OperationBody.payment "GB" native (pos 5) } ∷ [];
  successful = true;
  results = OperationResult.other ∷ [];
  result_meta = v0 ([] ∷ []);
  fee_changes = [];
}

abbrev ledger : ℤ → LedgerBundle
ledger l = record { sequence = l; close_time = pos 100; transactions = payment ∷ [] }

abbrev fine : World
fine = record { load = λ l. done (ledger l); refuses = λ call. false }

abbrev clearing : Config
clearing = record { ingest_failed_transactions = false; clear_existing = true; reports = true }

abbrev on_seven : Cursor
on_seven = record { first_ledger = pos 7; last_ledger = pos 8; lg = pos 7 }

abbrev old : List Row
old = ledger_row (pos 5) (pos 0) 0 0 0 ∷ []

abbrev rows_of : Outcome (List Row) → List Row
rows_of (done rows) = rows
rows_of o = []

visited_lem_example : visited 9 (new_cursor (pos 7) (pos 8)) ≡ (up 2 7, true)
visited_lem_example =
    visited_lem 7 8 9 (omega arith) (omega arith) (omega arith) (omega arith) (omega arith)

named-for_transaction_example :
    named "GB" (for_transaction payment) ≡ of_bool (takes_part "GB" payment)
named-for_transaction_example = named-for_transaction "GB" payment

run_lem_example :
    (r : Report) × (run 4 clearing fine (some (new_cursor (pos 7) (pos 8))) old ≡ some r)
    × Atomic clearing fine (pos 7) (pos 8) old (range_of 7 8) r
run_lem_example =
    run_lem clearing fine 7 8 4 old (omega arith) (omega arith) (omega arith) (omega arith)
      (omega arith)

clear_ledger-ingest_ledger_example :
    clear_ledger clearing fine on_seven
      (old ++ rows_of (ingest_ledger clearing fine.refuses on_seven (ledger (pos 7))))
    ≡ done old
unfolding clear_ledger ledger_range to_int64 new ◌+ℤ◌ row_id ingest_ledger transaction_id
    operation_id operation_details ingest_effects
clear_ledger-ingest_ledger_example =
    clear_ledger-ingest_ledger clearing fine on_seven 7 (ledger (pos 7)) old old
      (rows_of (ingest_ledger clearing fine.refuses on_seven (ledger (pos 7)))) refl (omega arith)
      (omega arith) (omega arith, tt) refl refl refl

abbrev signed_by : List Signer → AccountEntry
signed_by signers = record {
  account_id = "GA";
  balance = pos 10;
  seq_num = pos 1;
  flags = 0;
  master_weight = 1;
  signers = signers;
}

abbrev signer : ℕ → Signer
signer n = record { key = "GS"; weight = n }

-- The last signer of an account is removed.
abbrev one_removed : LedgerKey → Outcome Loaded
one_removed key = done (
  some (LedgerEntry.account (signed_by (signer 1 ∷ []))),
  some (LedgerEntry.account (signed_by [])),
)

replay-signer_effects_example :
    (es : List Effect) × (signer_effects one_removed "GA" ≡ done es)
    × ((x : String)
        → lookup x (replay_signers es (signer_summary (signed_by (signer 1 ∷ []))))
          ≡ lookup x (signer_summary (signed_by [])))
replay-signer_effects_example =
    replay-signer_effects one_removed "GA" (signed_by (signer 1 ∷ [])) (signed_by []) refl
