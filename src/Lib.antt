-- ===== src/Lib.antt =====
-- A verification library for the dfc API repository (Go): models of the parts that carry its own
-- logic, and theorems about them.
--
--   - `Base`: tests and the conditional, lists, counts, signed integers and words, maps.
--   - `Toid`: services/horizon/internal/toid/main.go, the packed int64 order of operations (`OrderId`,
--     `New`, `AfterLedger`, `IncOperationOrder`, `ToInt64`, `Parse`).
--   - `Sequence`: services/horizon/internal/txsub/sequence. `Sequence.Heap` is `pqueue` under Go's
--     container/heap, `Sequence.Queue` the queue of one account, `Sequence.Manager` the map of queues.
--   - `SimplePath`: services/horizon/internal/simplepath. `SimplePath.OrderBook` is order_book.go,
--     `SimplePath.Path` path.go, `SimplePath.Search` search.go and finder.go.
--   - `Submission`: services/horizon/internal/txsub. `Submission.OpenList` is
--     open_submission_list.go, `Submission.System` is system.go (`Submit`, `Tick`) on top of it and of
--     `Sequence.Manager`. A call's wait for its turn is one parameter for what other calls do.
--     `Submission.Provider` is results/db/main.go and submitter.go.
--   - `Paging`: services/horizon/internal/db2/page_query.go, page queries and their cursors. The
--     parser of integers is a parameter.
--   - `Archivist`: tools/dfc-archivist/internal/range.go, ranges of checkpoints (`Archivist.Range`). The
--     fuel of the loop of `Checkpoints` is the difference of the ends, which its 64 steps cover.
--   - `Xdr`: the XDR types that the other parts read, with the helpers of xdr/asset.go, ledger_key.go,
--     ledger_entry.go, ledger_entry_change.go, path_payment_result.go and account_entry.go.
--   - `Meta`: meta/bundle.go, the states of a ledger entry around an operation. `Meta.Replay` is the
--     ledger that they are compared with.
--   - `Ingest`: services/horizon/internal/ingest. `Ingest.Cursor` is cursor.go, `Ingest.Session` and
--     `Ingest.Session.Run` are session.go and ingestion.go, `Ingest.Effects` and `Ingest.Details` the
--     effects and the details of an operation in session.go, and `Ingest.Participants` is
--     participants/main.go. The core database is a function from sequences to ledgers, and which
--     calls of the databases fail is a function of the call. Rows are values.
--     `Ingest.System` is system.go: which ledgers a tick, a backfill and a reingestion take.
--   - `Reap`: services/horizon/internal/reap/system.go, the deletion of old history.
--   - `Price`: price/main.go, the continued fraction of a price. The parser of math/big is a parameter,
--     and the fuel of the loop is the denominator, which falls in every round.
--   - `Crc16`: crc16/main.go, and `Strkey`: strkey/main.go, the keys as text with their checksums. The
--     base32 encoding is a parameter.
--   - `Address`: address/main.go, the federation addresses.
--   - `Bridge`: services/bridge. `Bridge.Submitter` is internal/submitter/transaction_submitter.go and
--     `Bridge.Listener` internal/listener/payment_listener.go. What the network, the databases and
--     the callback answer to one call is a record of answers.
--   - `Examples`: concrete inputs for the theorems.
--
-- Conventions. Machine integers are numbers or integers with their wrap-around written out. A
-- method that mutates its receiver returns the new record. A panic is `none` or an error of its
-- own. A mutex makes a method one step. A channel is a number, and what is sent on it is a list of
-- signals in the order of sending. A Go map is an association list. The database, the clock and
-- the network are parameters: their answers are arguments of the functions.
--
-- Fuel. The loops of the heap take as much fuel as the slice is long, the loops of `Queue.Update`
-- as much as the queue is long, and their theorems are about that fuel. The path search takes its
-- fuel as an argument, with a theorem that a bound on the branching gives enough. The loop of a
-- session takes one unit for each call of `NextLedger`, with a theorem on how many it needs.
--
-- Not modelled: HTTP handlers and rendering, logging and metrics, SQL building, command lines and
-- configuration files, the generated XDR codec, asset statistics, test helpers, and what third-party packages do.
pub mod Base
pub mod Toid
pub mod Sequence
pub mod SimplePath
pub mod Submission
pub mod Paging
pub mod Archivist
mod Examples
pub mod Xdr
pub mod Meta
pub mod Ingest
pub mod Reap
pub mod Price
pub mod Bridge
pub mod Crc16
pub mod Strkey
pub mod Address
