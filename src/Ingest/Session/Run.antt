-- ===== src/Ingest/Session/Run.antt =====
-- services/horizon/internal/ingest/session.go (`Run`) and ingestion.go (`Clear`, `Flush`): a run over
-- the ledgers of a cursor, each of them cleared, ingested and committed on its own. Asset statistics
-- are switched off.
use dfc_api.Base.{ℕ, zero, suc, not, ◌&&◌, List, [], ◌∷◌, ◌++◌, Option, none, some, if◌then◌else◌}
use dfc_api.Base.Int.{ℤ, ltb_ℤ, leb_ℤ}
use dfc_api.Ingest.Outcome.{
  Outcome, no_cursor, database, report_failed, done, failed, panicked, ◌>>=◌,
}
use dfc_api.Ingest.Cursor.{
  Cursor, LedgerBundle, ledger_range, on_ledger, complete, stopped, broken, next_ledger,
}
use dfc_api.Ingest.Session.{
  Row, row_id, begin, close, report, clear, write, commit, restart, World, Config, accept,
  ingest_ledger,
}

-- `DeleteRange`: the rows with ids from `start` on and below `end` go.
unfoldable pub delete_range : ℤ → ℤ → List Row → List Row
delete_range start end [] = []
delete_range start end (r ∷ rows) =
    let rest = delete_range start end rows in
    if leb_ℤ start (row_id r) && ltb_ℤ (row_id r) end then rest else r ∷ rest

-- The rows that the transaction sees after the clearing of the current ledger.
unfoldable pub clear_ledger : Config → World → Cursor → List Row → Outcome (List Row)
unfolding delete_range accept
clear_ledger config world c rows = if not config.clear_existing then done rows else do
  range ← ledger_range c
  _ ← accept (world.refuses (clear c.lg))
  done (delete_range range.0 range.1 rows)

-- What a run leaves: the committed rows, the count of ingested ledgers, and the error or panic.
pub record Report : Type 0 where
  pub committed : List Row
  pub ingested : ℕ
  pub outcome : Outcome (Unit {0})

-- The flush of the rows of a transaction: nothing is committed before the commit succeeds, and the
-- next transaction may fail to start after it.
unfoldable pub flush : World → Cursor → List Row → List Row → List Row × Outcome (Unit {0})
unfolding accept
flush world c before after =
    if world.refuses (write c.lg)
    then (before, failed database)
    else if world.refuses (commit c.lg)
    then (before, failed database)
    else (after, accept (world.refuses (restart c.lg)))

-- What is left of the transaction in which a ledger was cleared and ingested: an error or a panic
-- rolls it back, and the ledger of an error counts as ingested all the same.
unfoldable pub ingested_one : World → Cursor → Report → List Row → Outcome (List Row) → Report
unfolding flush
ingested_one world c r kept (done rows) =
    let (committed, outcome) = flush world c r.committed (kept ++ rows) in
    record { committed = committed; ingested = suc r.ingested; outcome = outcome }
ingested_one world c r kept (failed e) = record r { ingested = suc r.ingested; outcome = failed e }
ingested_one world c r kept panicked = record r { outcome = panicked }

unfoldable pub cleared_one :
    Config → World → Cursor → LedgerBundle → Report → Outcome (List Row) → Report
unfolding ingested_one
cleared_one config world c bundle r (done kept) =
    ingested_one world c r kept (ingest_ledger config world.refuses c bundle)
cleared_one config world c bundle r (failed e) = record r { outcome = failed e }
cleared_one config world c bundle r panicked = record r { outcome = panicked }

unfoldable pub ingest_one : Config → World → Cursor → LedgerBundle → Report → Report
unfolding clear_ledger cleared_one
ingest_one config world c bundle r =
    cleared_one config world c bundle r (clear_ledger config world c r.committed)

-- The end of a run without an error.
unfoldable pub finish : Config → World → Outcome (Unit {0})
unfolding accept
finish config world = do
  _ ← accept (world.refuses close)
  if config.reports && world.refuses report then failed report_failed else done tt

-- The loop goes on after a ledger without an error.
unfoldable pub go_on : Outcome (Unit {0}) → Report → Option Report → Option Report
go_on (done u) r rest = rest
go_on (failed e) r rest = some r
go_on panicked r rest = some r

-- The loop over the ledgers, of at most `fuel` calls of `NextLedger`; `none` if it needs more.
unfoldable pub loop : ℕ → Config → World → Cursor → Report → Option Report
unfolding ingest_one finish go_on
loop zero config world c r = none
loop (suc fuel) config world c r = elim (next_ledger world.load c) [
  | on_ledger bundle next ↦
      let r' = ingest_one config world next bundle r in
      go_on r'.outcome r' (loop fuel config world next r')
  | complete next ↦ some (record r { outcome = finish config world })
  | stopped e next ↦ some (record r { outcome = failed e })
  | broken ↦ some (record r { outcome = panicked })
]

-- A session without a cursor, or whose transaction does not begin, touches nothing.
unfoldable pub run : ℕ → Config → World → Option Cursor → List Row → Option Report
unfolding loop
run fuel config world none rows =
    some (record { committed = rows; ingested = 0; outcome = failed no_cursor })
run fuel config world (some c) rows =
    if world.refuses begin
    then some (record { committed = rows; ingested = 0; outcome = failed database })
    else loop fuel config world c (record { committed = rows; ingested = 0; outcome = done tt })
