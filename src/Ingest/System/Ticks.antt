-- ===== src/Ingest/System/Ticks.antt =====
-- What a tick ingests.
use mathlib.Core.Path.{subst}
use dfc_api.Base.{
  ℕ, suc, ◌+◌, ◌-◌, ◌^◌, ◌≤◌, ◌<◌, ◌≡◌, refl, ap, false, some, if◌then◌else◌, ltb, ◌==◌, List,
  arith,
}
use dfc_api.Base.Int.{ℤ, pos, ◌+ℤ◌}
use dfc_api.Toid.{increment}
use dfc_api.Ingest.Outcome.{done}
use dfc_api.Ingest.Cursor.{Cursor, new_cursor, same}
use dfc_api.Ingest.Cursor.Iteration.{up, down}
use dfc_api.Ingest.Session.{Row, World, Config}
use dfc_api.Ingest.Session.Run.{Report, run}
use dfc_api.Ingest.Session.Atomic.{Atomic}
use dfc_api.Ingest.Session.Complete.{run_lem}
use dfc_api.Ingest.System.{choose_cursor, run_once, tick}

-- The first ledger of a tick: the one after the latest of the history, or the latest of the core
-- server if the history is empty.
abbrev pub first_of : ℕ → ℕ → ℕ
first_of core history = if history == 0 then core else suc history

choose_cursor_lem :
    (core history : ℕ)
    → history < core
    → core < 2 ^ 31 - 1
    → choose_cursor (pos core) (pos history)
      ≡ some (new_cursor (pos (first_of core history)) (pos core))
unfolding choose_cursor same increment ◌+ℤ◌
choose_cursor_lem core history h b = ground arith

module _ (config : Config) (world : World) where
  tick-run :
      (core history : ℤ) (fuel : ℕ) (c : Cursor) (rows : List Row)
      → choose_cursor core history ≡ some c
      → tick false fuel config world (done core) (done history) rows
        ≡ run fuel (record config { clear_existing = false }) world (some c) rows
  unfolding tick run_once
  tick-run core history fuel c rows e = rw (run_once, e) refl

  -- Without a session in progress, and with a core server that is ahead of the history by ledgers
  -- below the largest int32, a tick ingests from the ledger after the latest of the history up to the
  -- latest of the core server, or only the latest if the history is empty: what it commits are the
  -- first of those ledgers, without clearing anything, and all of them if it ends without an error.
  pub tick_lem :
      (core history fuel : ℕ) (rows : List Row)
      → history < core
      → core < 2 ^ 31 - 1
      → 1 + (core - first_of core history) < fuel
      → (r : Report) × (tick false fuel config world (done (pos core)) (done (pos history)) rows
          ≡ some r)
        × Atomic
            (record config { clear_existing = false })
            world
            (pos (first_of core history))
            (pos core)
            rows
            (up (suc (core - first_of core history)) (first_of core history))
            r
  tick_lem core history fuel rows h b enough =
      let first = first_of core history in
      let bounded : first ≤ core = ground arith in
      let ahead : ltb core first ≡ false = ground arith in
      rw
        (tick-run (pos core) (pos history) fuel (new_cursor (pos first) (pos core)) rows
          (choose_cursor_lem core history h b))
        (subst
          (λ range.
            (r : Report) × (run fuel (record config { clear_existing = false }) world
                (some (new_cursor (pos first) (pos core))) rows
              ≡ some r)
            × Atomic (record config { clear_existing = false }) world (pos first) (pos core) rows
                range r)
          (ap (λ t. if t then down (suc (first - core)) first else up (suc (core - first)) first)
            ahead)
          (run_lem (record config { clear_existing = false }) world first core fuel rows
            (ground arith) (omega arith) (omega arith) b (omega arith)))
