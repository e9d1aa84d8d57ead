-- ===== src/Ingest/Session/Atomic.antt =====
-- A run commits whole ledgers, in the order of its range, and all of them if it ends without an
-- error.
use dfc_api.Base.{◌≢◌, ◌≡◌, refl, Bool-cases, ◌⊎◌, inl, inr, List, [], ◌∷◌, ◌++◌}
use dfc_api.Base.Int.{ℤ}
use dfc_api.Ingest.Outcome.{Outcome, Err, database, done, failed, panicked}
use dfc_api.Ingest.Cursor.{Cursor, LedgerBundle}
use dfc_api.Ingest.Session.{Row, write, commit, World, Config, ingest_ledger}
use dfc_api.Ingest.Session.Run.{Report, ingested_one, cleared_one, clear_ledger, flush, ingest_one}

abbrev pub ledger_of : ℤ → ℤ → ℤ → Cursor
ledger_of first last l = record { first_ledger = first; last_ledger = last; lg = l }

-- The rows that ledgers of a list leave, one whole ledger after the other: each of them is loaded,
-- cleared and ingested.
pub data Commits (config : Config) (world : World) (first last : ℤ)
    : List Row → List ℤ → List Row → Type 0 where
  nothing : (rows : List Row) → Commits config world first last rows [] rows
  ledger :
      (rows kept new end : List Row) (bundle : LedgerBundle) (l : ℤ) (ls : List ℤ)
      → world.load l ≡ done bundle
      → clear_ledger config world (ledger_of first last l) rows ≡ done kept
      → ingest_ledger config world.refuses (ledger_of first last l) bundle ≡ done new
      → Commits config world first last (kept ++ new) ls end
      → Commits config world first last rows (l ∷ ls) end

-- What a report says about a run over the ledgers of `range`.
pub record Atomic (config : Config) (world : World) (first last : ℤ) (rows : List Row)
    (range : List ℤ) (r : Report) : Type 0 where
  pub ledgers : List ℤ
  pub rest : List ℤ
  pub commits : Commits config world first last rows ledgers r.committed
  pub prefix : ledgers ++ rest ≡ range
  pub whole : r.outcome ≡ done tt → rest ≡ []

pub failed≢done {ℓ} : {A : Type ℓ} {o : Outcome A} {e : Err} {a : A} → o ≡ failed e → o ≢ done a
failed≢done h k = cc

pub panicked≢done {ℓ} : {A : Type ℓ} {o : Outcome A} {a : A} → o ≡ panicked → o ≢ done a
panicked≢done h k = cc

module _ (config : Config) (world : World) where
  -- The two ways that one ledger ends, with a report `r'`.
  pub data One (c : Cursor) (bundle : LedgerBundle) (r r' : Report) : Type 0 where
    unchanged : r'.committed ≡ r.committed → r'.outcome ≢ done tt → One c bundle r r'
    written :
        (kept new : List Row)
        → clear_ledger config world c r.committed ≡ done kept
        → ingest_ledger config world.refuses c bundle ≡ done new
        → r'.committed ≡ kept ++ new
        → One c bundle r r'

  flush-cases :
      (c : Cursor) (before after : List Row)
      → (((flush world c before after).0 ≡ before)
          × ((flush world c before after).1 ≡ failed database))
        ⊎ ((flush world c before after).0 ≡ after)
  unfolding flush
  flush-cases c before after = elim (Bool-cases (world.refuses (write c.lg))) [
    | inl e ↦ inl (rw e (refl, refl))
    | inr e ↦ elim (Bool-cases (world.refuses (commit c.lg))) [
      | inl f ↦ inl (rw (e, f) (refl, refl))
      | inr f ↦ inr (rw (e, f) refl)
    ]
  ]

  ingested_one-cases :
      (c : Cursor) (bundle : LedgerBundle) (r : Report) (kept : List Row) (o : Outcome (List Row))
      → clear_ledger config world c r.committed ≡ done kept
      → ingest_ledger config world.refuses c bundle ≡ o
      → One c bundle r (ingested_one world c r kept o)
  unfolding ingested_one
  ingested_one-cases c bundle r kept (failed why) e f = unchanged refl (failed≢done refl)
  ingested_one-cases c bundle r kept panicked e f = unchanged refl (panicked≢done refl)
  ingested_one-cases c bundle r kept (done new) e f =
      elim (flush-cases c r.committed (kept ++ new)) [
        | inl (same, why) ↦ unchanged same (failed≢done why)
        | inr changed ↦ written kept new e f changed
      ]

  cleared_one-cases :
      (c : Cursor) (bundle : LedgerBundle) (r : Report) (o : Outcome (List Row))
      → clear_ledger config world c r.committed ≡ o
      → One c bundle r (cleared_one config world c bundle r o)
  unfolding cleared_one
  cleared_one-cases c bundle r (failed why) e = unchanged refl (failed≢done refl)
  cleared_one-cases c bundle r panicked e = unchanged refl (panicked≢done refl)
  cleared_one-cases c bundle r (done kept) e =
      ingested_one-cases c bundle r kept (ingest_ledger config world.refuses c bundle) e refl

  pub ingest_one-cases :
      (c : Cursor) (bundle : LedgerBundle) (r : Report)
      → One c bundle r (ingest_one config world c bundle r)
  unfolding ingest_one
  ingest_one-cases c bundle r =
      cleared_one-cases c bundle r (clear_ledger config world c r.committed) refl
