-- ===== src/Ingest/System.antt =====
-- services/horizon/internal/ingest/system.go: which ledgers are ingested, and when.
pub mod Segments
pub mod Ticks
use dfc_api.Base.{
  ℕ, zero, suc, ◌+◌, ◌-◌, ◌%◌, ◌^◌, Bool, true, false, List, [], ◌∷◌, Option, none, some,
  if◌then◌else◌,
}
use dfc_api.Base.Int.{ℤ, pos, ◌+ℤ◌, ◌-ℤ◌, wrap, int32}
use dfc_api.Toid.{new, to_int64, increment}
use dfc_api.Ingest.Outcome.{Outcome, Err, database, done, failed, panicked, ◌>>=◌}
use dfc_api.Ingest.Cursor.{Cursor, new_cursor, same, identified}
use dfc_api.Ingest.Session.{Row, World, Config, begin, close, accept}
use dfc_api.Ingest.Session.Run.{Report, delete_range, run}

-- `ReingestRange`: a session that clears.
unfoldable pub reingest_range : ℕ → Config → World → ℤ → ℤ → List Row → Option Report
unfolding run new_cursor
reingest_range fuel config world start end rows =
    run fuel (record config { clear_existing = true }) world (some (new_cursor start end)) rows

unfoldable pub reingest_single : ℕ → Config → World → ℤ → List Row → Option Report
unfolding reingest_range
reingest_single fuel config world sequence rows =
    reingest_range fuel config world sequence sequence rows

-- From the ledger before the elder one down to the `n`-th.
unfoldable pub backfill_cursor : ℤ → ℕ → Cursor
unfolding new_cursor increment
backfill_cursor history_elder n =
    let start = int32 (wrap (2 ^ 32) (history_elder -ℤ pos 1)) in
    new_cursor start (increment (int32 (wrap (2 ^ 32) (start -ℤ int32 (n % 2 ^ 32)))))

unfoldable pub backfill : ℕ → Config → World → ℤ → ℕ → List Row → Option Report
unfolding run backfill_cursor
backfill fuel config world history_elder n rows =
    run fuel (record config { clear_existing = false }) world
      (some (backfill_cursor history_elder n)) rows

-- The runs of successive sequences among the outdated ledgers, after those from `start` to `end`.
unfoldable pub segments : ℤ → ℤ → List ℤ → List (ℤ × ℤ)
unfolding same increment
segments start end [] = (start, end) ∷ []
segments start end (seq ∷ outdated) =
    if same start (pos 0)
    then segments seq seq outdated
    else if same seq (increment end)
    then segments start seq outdated
    else (start, end) ∷ segments seq seq outdated

-- The segments one after the other, each in a session with databases of its own; the first error
-- ends them. The count is that of their ledgers.
unfoldable pub reingest_segments :
    ℕ → Config → (ℕ → World) → List (ℤ × ℤ) → ℕ → List Row → Option Report
unfolding reingest_range
reingest_segments fuel config worlds [] n rows =
    some (record { committed = rows; ingested = n; outcome = done tt })
reingest_segments fuel config worlds ((start, end) ∷ rest) n rows =
    elim (reingest_range fuel config (worlds 0) start end rows) [
      | none ↦ none
      | some r ↦ elim r.outcome [
        | done u ↦
            reingest_segments fuel config (λ i. worlds (suc i)) rest (n + r.ingested) r.committed
        | failed e ↦ some (record r { ingested = n; outcome = failed e })
        | panicked ↦ some (record r { ingested = n; outcome = panicked })
      ]
    ]

-- Passes over the outdated ledgers that the query gives, until there are none. The code does not
-- bound their number, `rounds` does.
unfoldable pub reingest_outdated :
    ℕ → ℕ → Config → (ℕ → ℕ → World) → (List Row → Outcome (List ℤ)) → ℕ → List Row → Option Report
unfolding segments reingest_segments
reingest_outdated zero fuel config worlds query n rows = none
reingest_outdated (suc rounds) fuel config worlds query n rows = elim (query rows) [
  | failed e ↦ some (record { committed = rows; ingested = n; outcome = failed e })
  | panicked ↦ some (record { committed = rows; ingested = n; outcome = panicked })
  | done [] ↦ some (record { committed = rows; ingested = n; outcome = done tt })
  | done (seq ∷ outdated) ↦
      elim (reingest_segments fuel config (worlds 0) (segments (pos 0) (pos 0) (seq ∷ outdated)) n
        rows) [
          | none ↦ none
          | some r ↦ elim r.outcome [
            | done u ↦
                reingest_outdated rounds fuel config (λ i. worlds (suc i)) query r.ingested
                  r.committed
            | failed e ↦ some r
            | panicked ↦ some r
          ]
        ]
]

-- What `runOnce` decides to import, from the latest ledgers of the two databases.
unfoldable pub choose_cursor : ℤ → ℤ → Option Cursor
unfolding same new_cursor increment
choose_cursor core_latest history_latest =
    if same history_latest core_latest
    then none
    else some (
        if same history_latest (pos 0)
        then new_cursor core_latest core_latest
        else new_cursor (increment history_latest) core_latest)

-- The report of a run that is left out.
abbrev pub untouched : List Row → Report
untouched rows = record { committed = rows; ingested = 0; outcome = done tt }

unfoldable pub run_once : ℕ → Config → World → Outcome ℤ → Outcome ℤ → List Row → Option Report
unfolding choose_cursor run
run_once fuel config world (done core_latest) (done history_latest) rows =
    elim (choose_cursor core_latest history_latest) [
      | none ↦ some (untouched rows)
      | some c ↦ run fuel (record config { clear_existing = false }) world (some c) rows
    ]
run_once fuel config world core_latest history_latest rows = some (untouched rows)

-- Whether a session is in progress; the one that is started ends within the call.
unfoldable pub tick : Bool → ℕ → Config → World → Outcome ℤ → Outcome ℤ → List Row → Option Report
unfolding run_once
tick true fuel config world core_latest history_latest rows = some (untouched rows)
tick false fuel config world core_latest history_latest rows =
    run_once fuel config world core_latest history_latest rows

-- `Ingestion.Clear` of a range in a transaction of its own.
unfoldable pub clear_range : World → Bool → ℤ → ℤ → List Row → List Row × Outcome (Unit {0})
unfolding delete_range accept
clear_range world refused start end rows =
    if world.refuses begin
    then (rows, failed database)
    else if refused
    then (rows, failed database)
    else if world.refuses close
    then (rows, failed database)
    else (delete_range start end rows, done tt)

unfoldable pub clear_all : World → Bool → List Row → List Row × Outcome (Unit {0})
unfolding clear_range
clear_all world refused rows = clear_range world refused (pos 0) (pos (2 ^ 63 - 1)) rows

-- The history is cleared and ingested again, downwards from the latest ledger of the core server.
unfoldable pub rebase_history :
    ℕ → Config → World → Bool → Outcome ℤ → Outcome ℤ → List Row → Option Report
unfolding clear_all reingest_range
rebase_history fuel config world refused (done latest) (done elder) rows =
    let (cleared, outcome) = clear_all world refused rows in
    elim outcome [
      | done u ↦ reingest_range fuel config world latest elder cleared
      | failed e ↦ some (record { committed = cleared; ingested = 0; outcome = failed e })
      | panicked ↦ some (record { committed = cleared; ingested = 0; outcome = panicked })
    ]
rebase_history fuel config world refused latest elder rows =
    some (record { committed = rows; ingested = 0; outcome = failed database })

unfoldable pub reingest_all : ℕ → Config → World → Outcome ℤ → Outcome ℤ → List Row → Option Report
unfolding reingest_range
reingest_all fuel config world (done elder) (done latest) rows =
    reingest_range fuel config world latest elder rows
reingest_all fuel config world elder latest rows =
    some (record { committed = rows; ingested = 0; outcome = failed database })

-- The ledgers that the core server no longer has are cleared.
unfoldable pub trim_abandoned_ledgers :
    World → Bool → Outcome ℤ → List Row → Outcome (List Row × Outcome (Unit {0}))
unfolding clear_range identified
trim_abandoned_ledgers world refused core_elder rows = do
  elder ← core_elder
  end ← identified (to_int64 (new elder (pos 0) (pos 0)))
  done (clear_range world refused (pos 0) end rows)
