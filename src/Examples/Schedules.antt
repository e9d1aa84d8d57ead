-- ===== src/Examples/Schedules.antt =====
-- Which ledgers are ingested and deleted, at small sequences.
use dfc_api.Base.{Bool, ◌+◌, ◌*◌, ◌^◌, ◌≡◌, true, false, List, [], ◌∷◌, none, some, map, arith}
use dfc_api.Base.Int.{pos}
use dfc_api.Xdr.{native}
use dfc_api.Xdr.Operation.{ClaimOfferAtom}
use dfc_api.Ingest.Outcome.{done}
use dfc_api.Ingest.Cursor.Iteration.{up}
use dfc_api.Ingest.Session.{Row, ledger_row, operation_participant, trade_row, World, Config}
use dfc_api.Ingest.Session.Run.{Report}
use dfc_api.Ingest.Session.Atomic.{Atomic}
use dfc_api.Ingest.System.{segments, tick}
use dfc_api.Ingest.System.Segments.{ledgers_of, ledgers_of-segments}
use dfc_api.Ingest.System.Ticks.{first_of, tick_lem}
use dfc_api.Reap.{Table, operations, delete_unretained_history}
use dfc_api.Reap.Laws.{Reaped, delete_unretained_history_lem}

-- Ledgers without transactions, in databases that never fail.
abbrev quiet : World
quiet = record {
  load = λ l. done (record { sequence = l; close_time = pos 100; transactions = [] });
  refuses = λ call. false;
}

abbrev plain : Config
plain = record { ingest_failed_transactions = false; clear_existing = false; reports = false }

abbrev sold : ClaimOfferAtom
sold = record {
  seller_id = "GB";
  offer_id = 1;
  asset_sold = native;
  amount_sold = pos 2;
  asset_bought = native;
  amount_bought = pos 2;
}

-- A ledger with a participant of an operation and a trade, and the next one.
abbrev history : List Row
history =
    ledger_row (pos (5 * 2 ^ 32)) (pos 5) 0 0 0
    ∷ operation_participant (pos (5 * 2 ^ 32 + 1)) "GA"
    ∷ trade_row (pos (5 * 2 ^ 32 + 1)) (pos 0) "GA" none sold (record { n = pos 1; d = pos 1 })
        (pos 9)
    ∷ ledger_row (pos (6 * 2 ^ 32)) (pos 6) 0 0 0
    ∷ []

abbrev refuses_operations : Table → Bool
refuses_operations operations = true
refuses_operations t = false

ledgers_of-segments_example :
    ledgers_of (segments (pos 0) (pos 0) (map pos (3 ∷ 4 ∷ 9 ∷ []))) ≡ map pos (3 ∷ 4 ∷ 9 ∷ [])
ledgers_of-segments_example =
    ledgers_of-segments 3 (4 ∷ 9 ∷ [])
      ((omega arith, omega arith), ((omega arith, omega arith), ((omega arith, omega arith), tt)))

tick_lem_example :
    (r : Report) × (tick false 4 plain quiet (done (pos 8)) (done (pos 6)) history ≡ some r)
    × Atomic
        (record plain { clear_existing = false })
        quiet
        (pos (first_of 8 6))
        (pos 8)
        history
        (up 2 7)
        r
tick_lem_example = tick_lem plain quiet 8 6 4 history (omega arith) (omega arith) (omega arith)

-- The deletion of the operations is refused.
delete_unretained_history_lem_example : Reaped refuses_operations 6 history (
    delete_unretained_history refuses_operations 1
      (record { history_latest = pos 6; history_elder = pos 5 })
      history)
delete_unretained_history_lem_example =
    delete_unretained_history_lem refuses_operations 6 5 1 history (omega arith) (omega arith)
      (omega arith) (omega arith)
