-- ===== src/Reap.antt =====
-- services/horizon/internal/reap/system.go: the deletion of history that is older than the retained
-- ledgers.
pub mod Tables
pub mod Laws
use dfc_api.Base.{ℕ, ◌%◌, ◌^◌, Bool, true, false, ◌&&◌, List, [], ◌∷◌, if◌then◌else◌, ◌==◌}
use dfc_api.Base.Int.{ℤ, pos, ◌-ℤ◌, ltb_ℤ, leb_ℤ, wrap, int32}
use dfc_api.Toid.{new, to_int64, increment}
use dfc_api.Ingest.Outcome.{Outcome, database, done, failed, panicked}
use dfc_api.Ingest.Cursor.{identified}
use dfc_api.Ingest.Session.{
  Row, row_id, ledger_row, transaction_row, transaction_participant, operation_row,
  operation_participant, effect_row, trade_row,
}

pub data Table : Type 0 where
  effects operation_participants operations transaction_participants : Table
  transactions ledgers trades : Table

unfoldable pub table_of : Row → Table
table_of (ledger_row id s t f o) = ledgers
table_of (transaction_row id t) = transactions
table_of (transaction_participant id a) = transaction_participants
table_of (operation_row id tx o source b d) = operations
table_of (operation_participant id a) = operation_participants
table_of (effect_row id o e) = effects
table_of (trade_row id o a b c p t) = trades

unfoldable pub number_of : Table → ℕ
number_of effects = 0
number_of operation_participants = 1
number_of operations = 2
number_of transaction_participants = 3
number_of transactions = 4
number_of ledgers = 5
number_of trades = 6

-- The tables that are cleared, in this order.
abbrev pub reaped_tables : List Table
reaped_tables =
    effects ∷ operation_participants ∷ operations ∷ transaction_participants ∷ transactions
    ∷ ledgers ∷ []

unfoldable pub is_deleted : Table → ℤ → Row → Bool
unfolding table_of number_of
is_deleted table end r =
    (number_of (table_of r) == number_of table)
    && (leb_ℤ (pos 0) (row_id r) && ltb_ℤ (row_id r) end)

-- `DeleteRange` of one table.
unfoldable pub delete_from : Table → ℤ → List Row → List Row
unfolding is_deleted
delete_from table end [] = []
delete_from table end (r ∷ rows) =
    let rest = delete_from table end rows in if is_deleted table end r then rest else r ∷ rest

-- The deletions are in no transaction: those before a failing one stay.
unfoldable pub clear_tables :
    (Table → Bool) → ℤ → List Table → List Row → List Row × Outcome (Unit {0})
unfolding delete_from
clear_tables refuses end [] rows = (rows, done tt)
clear_tables refuses end (table ∷ tables) rows =
    let rest = clear_tables refuses end tables (delete_from table end rows) in
    if refuses table then (rows, failed database) else rest

unfoldable pub clear_to : (Table → Bool) → Outcome ℤ → List Row → List Row × Outcome (Unit {0})
unfolding clear_tables
clear_to refuses (done end) rows = clear_tables refuses end reaped_tables rows
clear_to refuses (failed e) rows = (rows, failed e)
clear_to refuses panicked rows = (rows, panicked)

unfoldable pub clear_before : (Table → Bool) → ℤ → List Row → List Row × Outcome (Unit {0})
unfolding clear_to identified
clear_before refuses seq rows =
    clear_to refuses (identified (to_int64 (new seq (pos 0) (pos 0)))) rows

-- The state of the history that the process last saw.
pub record LedgerState : Type 0 where
  pub history_latest : ℤ
  pub history_elder : ℤ

unfoldable pub target_elder : LedgerState → ℕ → ℤ
unfolding increment
target_elder latest retention_count =
    increment (int32 (wrap (2 ^ 32) (latest.history_latest -ℤ int32 (retention_count % 2 ^ 32))))

unfoldable pub delete_unretained_history :
    (Table → Bool) → ℕ → LedgerState → List Row → List Row × Outcome (Unit {0})
unfolding clear_before target_elder
delete_unretained_history refuses retention_count latest rows =
    if retention_count == 0
    then (rows, done tt)
    else if ltb_ℤ (target_elder latest retention_count) latest.history_elder
    then (rows, done tt)
    else clear_before refuses (target_elder latest retention_count) rows
