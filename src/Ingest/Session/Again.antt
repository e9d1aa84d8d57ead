-- ===== src/Ingest/Session/Again.antt =====
-- Ingesting a ledger again replaces its rows by the same ones.
use mathlib.Core.Path.{subst}
use mathlib.Core.List.{append-nil}
use dfc_api.Base.{
  ℕ, suc, ◌-◌, ◌*◌, ◌^◌, ◌<◌, some, ◌≡◌, refl, sym, ap, ◌∙◌, true, false, Bool-cases, inl, inr,
  List, [], ◌∷◌, ◌++◌, if◌then◌else◌, length, All, arith,
}
use dfc_api.Base.Int.{ℤ, pos, ◌+ℤ◌, ◌≤ℤ◌}
use dfc_api.Toid.{new, to_int64, increment}
use dfc_api.Toid.Order.{to_int64-position}
use dfc_api.Ingest.Outcome.{database, done, failed}
use dfc_api.Ingest.Cursor.{Cursor, LedgerBundle, ledger_range, same, ledger_id, identified}
use dfc_api.Ingest.Session.{Row, clear, World, Config, accept, ingest_ledger}
use dfc_api.Ingest.Session.Run.{delete_range, clear_ledger}
use dfc_api.Ingest.Session.Ids.{Gives, InLedger, ledger-InLedger}

delete_range-append :
    (start end : ℤ) (xs ys : List Row)
    → delete_range start end (xs ++ ys) ≡ delete_range start end xs ++ delete_range start end ys
unfolding delete_range
delete_range-append start end [] ys = refl
delete_range-append start end (r ∷ xs) ys = ground (arith, delete_range-append start end xs ys)

delete_range-idempotent :
    (start end : ℤ) (xs : List Row)
    → delete_range start end (delete_range start end xs) ≡ delete_range start end xs
unfolding delete_range
delete_range-idempotent start end [] = refl
delete_range-idempotent start end (r ∷ xs) = ground (arith, delete_range-idempotent start end xs)

-- The ids of a range go.
delete_range-Within :
    (start end : ℤ) (l : ℕ) (xs : List Row)
    → start ≤ℤ pos (l * 2 ^ 32)
    → end ≡ pos (suc l * 2 ^ 32)
    → All (InLedger l) xs
    → delete_range start end xs ≡ []
unfolding delete_range
delete_range-Within start end l [] s e all = refl
delete_range-Within start end l (r ∷ xs) s e all =
    ground (arith, delete_range-Within start end l xs s e all.1, all.0)

increment-small : (l : ℕ) → l < 2 ^ 31 - 1 → increment (pos l) ≡ pos (suc l)
unfolding increment ◌+ℤ◌
increment-small l h = ground arith

pub to_int64-ledger :
    (l : ℕ) → l < 2 ^ 31 → to_int64 (new (pos l) (pos 0) (pos 0)) ≡ some (pos (l * 2 ^ 32))
to_int64-ledger l h =
    to_int64-position l 0 0
      (record { ledger = h; transaction = omega arith; operation = omega arith })
    ∙ ap some (ap pos (omega arith))

ledger_range_lem :
    (c : Cursor) (l : ℕ)
    → c.lg ≡ pos l
    → l < 2 ^ 31 - 1
    → ledger_range c
      ≡ done (if same (pos l) (pos 1) then pos 0 else pos (l * 2 ^ 32), pos (suc l * 2 ^ 32))
unfolding ledger_range ledger_id identified same
ledger_range_lem c l e h = elim (Bool-cases (same (pos l) (pos 1))) [
  | inl first ↦
      rw
        (
          e,
          increment-small l h,
          to_int64-ledger l (omega arith),
          to_int64-ledger (suc l) (omega arith),
          first,
        )
        refl
  | inr later ↦
      rw
        (
          e,
          increment-small l h,
          to_int64-ledger l (omega arith),
          to_int64-ledger (suc l) (omega arith),
          later,
        )
        refl
]

module _ (config : Config) (world : World) (c : Cursor) (l : ℕ) where
  clear_refused :
      (start end : ℤ) (rows : List Row)
      → config.clear_existing ≡ true
      → ledger_range c ≡ done (start, end)
      → world.refuses (clear c.lg) ≡ true
      → clear_ledger config world c rows ≡ failed database
  unfolding clear_ledger accept
  clear_refused start end rows clears e r = rw (clears, e, r) refl

  clear_done :
      (start end : ℤ) (rows : List Row)
      → config.clear_existing ≡ true
      → ledger_range c ≡ done (start, end)
      → world.refuses (clear c.lg) ≡ false
      → clear_ledger config world c rows ≡ done (delete_range start end rows)
  unfolding clear_ledger accept
  clear_done start end rows clears e r = rw (clears, e, r) refl

  clear_again :
      (start end : ℤ) (rows kept new : List Row)
      → config.clear_existing ≡ true
      → ledger_range c ≡ done (start, end)
      → delete_range start end new ≡ []
      → clear_ledger config world c rows ≡ done kept
      → clear_ledger config world c (kept ++ new) ≡ done kept
  clear_again start end rows kept new clears e gone cleared =
      elim (Bool-cases (world.refuses (clear c.lg))) [
        | inl refused ↦ absurd cc (cleared, clear_refused start end rows clears e refused)
        | inr accepted ↦
            let first : delete_range start end rows ≡ kept =
              cc (cleared, clear_done start end rows clears e accepted) in
            clear_done start end (kept ++ new) clears e accepted
            ∙ ap done (
                delete_range-append start end kept new
                ∙ rw (gone, sym first, delete_range-idempotent start end rows)
                    (append-nil (delete_range start end rows)))
      ]

  -- Where a session clears, a ledger below the largest int32 that was cleared and ingested is cleared
  -- again to the rows that there were before its own: ingested twice, it has its rows once.
  pub clear_ledger-ingest_ledger :
      (bundle : LedgerBundle) (rows kept new : List Row)
      → c.lg ≡ pos l
      → l < 2 ^ 31 - 1
      → length bundle.transactions < 2 ^ 31
      → All (λ t. length t.operations < 2 ^ 31) bundle.transactions
      → config.clear_existing ≡ true
      → clear_ledger config world c rows ≡ done kept
      → ingest_ledger config world.refuses c bundle ≡ done new
      → clear_ledger config world c (kept ++ new) ≡ done kept
  clear_ledger-ingest_ledger bundle rows kept new e h b b' clears cleared ingested =
      let start = if same (pos l) (pos 1) then pos 0 else pos (l * 2 ^ 32) in
      let mine : All (InLedger l) new =
        subst (Gives (All (InLedger l))) ingested
          (ledger-InLedger l (omega arith) c e world.refuses bundle config b b') in
      clear_again start (pos (suc l * 2 ^ 32)) rows kept new clears (ledger_range_lem c l e h)
        (delete_range-Within start (pos (suc l * 2 ^ 32)) l new (unfold same in ground arith) refl
          mine)
        cleared
