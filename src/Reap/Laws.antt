-- ===== src/Reap/Laws.antt =====
-- What the reaper deletes.
use dfc_api.Base.{
  ℕ, ◌+◌, ◌-◌, ◌*◌, ◌^◌, ◌≤◌, ◌<◌, ◌≡◌, refl, sym, ap, ◌∙◌, Bool, true, false, not, ◌&&◌, ◌||◌, All,
  ◌⊎◌, ◌/◌, inl, inr, List, ◌++◌, leb, ◌==◌, arith,
}
use dfc_api.Base.Int.{ℤ, pos, negsuc, ◌+ℤ◌, ◌-ℤ◌, leb_ℤ, ltb_ℤ}
use dfc_api.Toid.{new, to_int64, increment}
use dfc_api.Ingest.Outcome.{Outcome, database, done, failed}
use dfc_api.Ingest.Cursor.{identified}
use dfc_api.Ingest.Session.{
  Row, row_id, ledger_row, transaction_row, transaction_participant, operation_row,
  operation_participant, effect_row, trade_row,
}
use dfc_api.Ingest.Session.Again.{to_int64-ledger}
use dfc_api.Reap.{
  Table, trades, table_of, number_of, reaped_tables, clear_to, clear_before, target_elder,
  delete_unretained_history,
}
use dfc_api.Reap.Tables.{
  keep, keep_cong, among, among-append, stays, swapped, Cleared, clear_tables-Cleared,
}
use mathlib.Core.List.{append-nil}

-- The end of the range of the ledgers below `target`.
to_int64-target :
    (target : ℕ)
    → target < 2 ^ 31
    → identified (to_int64 (new (pos target) (pos 0) (pos 0))) ≡ done (pos (target * 2 ^ 32))
unfolding identified
to_int64-target target h = rw (to_int64-ledger target h) refl

target_lem :
    (latest elder retention : ℕ)
    → retention ≤ latest
    → latest < 2 ^ 31 - 1
    → 0 < retention
    → target_elder (record { history_latest = pos latest; history_elder = pos elder }) retention
      ≡ pos (latest - retention + 1)
unfolding target_elder increment ◌-ℤ◌ ◌+ℤ◌
target_lem latest elder retention h b some_kept = ground arith

clear_before-Cleared :
    (refuses : Table → Bool) (target : ℕ) (rows : List Row)
    → target < 2 ^ 31
    → Cleared refuses
        (pos (target * 2 ^ 32))
        reaped_tables
        rows
        (clear_before refuses (pos target) rows)
unfolding clear_before
clear_before-Cleared refuses target rows h =
    rw (to_int64-target target h)
      (unfold clear_to in clear_tables-Cleared refuses (pos (target * 2 ^ 32)) reaped_tables rows)

delete_unretained_history_due :
    (refuses : Table → Bool) (latest elder retention : ℕ) (rows : List Row)
    → 0 < retention
    → retention ≤ latest
    → latest < 2 ^ 31 - 1
    → elder ≤ latest - retention + 1
    → delete_unretained_history refuses retention
        (record { history_latest = pos latest; history_elder = pos elder })
        rows
      ≡ clear_before refuses (pos (latest - retention + 1)) rows
unfolding delete_unretained_history
delete_unretained_history_due refuses latest elder retention rows kept h b older =
    let target = latest - retention + 1 in
    let on : (retention == 0) ≡ false = ground arith in
    let due : ltb_ℤ (pos target) (pos elder) ≡ false = ground arith in
    rw (on, target_lem latest elder retention h b kept, due) refl

-- Whether an id is of a ledger from `target` on. Each ledger has 2^32 ids.
unfoldable pub is_retained : ℕ → ℤ → Bool
is_retained target (pos id) = leb target (id / 2 ^ 32)
is_retained target (negsuc id) = true

unfoldable pub is_trade : Row → Bool
is_trade (trade_row id o a b c p t) = true
is_trade r = false

is_retained_lem :
    (target : ℕ) (id : ℤ)
    → (leb_ℤ (pos 0) id && ltb_ℤ id (pos (target * 2 ^ 32))) ≡ not (is_retained target id)
unfolding is_retained
is_retained_lem target (pos id) = ground arith
is_retained_lem target (negsuc id) = ground arith

stays-retained :
    (cleared : List Table) (target : ℕ) (r : Row)
    → stays cleared (pos (target * 2 ^ 32)) r
      ≡ (is_retained target (row_id r) || not (among (table_of r) cleared))
unfolding stays
stays-retained cleared target r =
    rw (is_retained_lem target (row_id r))
      (swapped (among (table_of r) cleared) (is_retained target (row_id r)))

reaped_tables_lem : (r : Row) → not (among (table_of r) reaped_tables) ≡ is_trade r
unfolding among table_of number_of is_trade
reaped_tables_lem (ledger_row id s t f o) = refl
reaped_tables_lem (transaction_row id t) = refl
reaped_tables_lem (transaction_participant id a) = refl
reaped_tables_lem (operation_row id tx o source b d) = refl
reaped_tables_lem (operation_participant id a) = refl
reaped_tables_lem (effect_row id o e) = refl
reaped_tables_lem (trade_row id o a b c p t) = refl

-- What the reaper leaves: of some tables whose deletion is accepted, never that of the trades, the rows
-- below `target` are gone. These are all tables but that of the trades and there is no error, or a
-- deletion is refused.
pub record Reaped (refuses : Table → Bool) (target : ℕ) (rows : List Row)
    (result : List Row × Outcome (Unit {0})) : Type 0 where
  pub cleared : List Table
  pub kept :
      result.0 ≡ keep (λ r. is_retained target (row_id r) || not (among (table_of r) cleared)) rows
  pub accepted : All (λ t. refuses t ≡ false) cleared
  pub no_trades : among trades cleared ≡ false
  pub ended :
      ((result.1 ≡ done tt)
        × (result.0 ≡ keep (λ r. is_retained target (row_id r) || is_trade r) rows))
      ⊎ ((t : Table) × (refuses t ≡ true) × (result.1 ≡ failed database))

Cleared-Reaped :
    (refuses : Table → Bool) (target : ℕ) (rows : List Row) (result : List Row × Outcome (Unit {0}))
    → Cleared refuses (pos (target * 2 ^ 32)) reaped_tables rows result
    → Reaped refuses target rows result
Cleared-Reaped refuses target rows result c =
    let kept = c.kept ∙ keep_cong _ _ rows (stays-retained c.cleared target) in
    let none_left : among trades (c.cleared ++ c.rest) ≡ false =
      ap (among trades) c.order ∙ unfold among in unfold number_of in refl in
    record {
      cleared = c.cleared;
      kept = kept;
      accepted = c.accepted;
      no_trades = ground (arith, among-append trades c.cleared c.rest);
      ended = elim c.ended [
        | inl (all, fine) ↦
            let every : c.cleared ≡ reaped_tables =
              sym (append-nil c.cleared) ∙ ap (λ l. c.cleared ++ l) (sym all) ∙ c.order in
            inl (
              fine,
              kept
                  ∙ keep_cong _ _ rows (λ r.
                    ap (λ b. is_retained target (row_id r) || b)
                      (ap (λ ts. not (among (table_of r) ts)) every ∙ reaped_tables_lem r)),
            )
        | inr refused ↦ inr refused
      ];
    }

-- Where some ledgers are retained, no more than there are up to the latest, which is below the largest
-- int32, and the elder ledger is not above the first retained one: if no deletion fails, the reaper
-- leaves exactly the trades and the rows of the retained ledgers, and ends without an error. Otherwise
-- it ends with the error of a deletion that fails, and has deleted the rows below the retained ledgers
-- of some tables and no others, the trades not being among them.
pub delete_unretained_history_lem :
    (refuses : Table → Bool) (latest elder retention : ℕ) (rows : List Row)
    → 0 < retention
    → retention ≤ latest
    → latest < 2 ^ 31 - 1
    → elder ≤ latest - retention + 1
    → Reaped refuses (latest - retention + 1) rows (
        delete_unretained_history refuses retention
          (record { history_latest = pos latest; history_elder = pos elder })
          rows)
delete_unretained_history_lem refuses latest elder retention rows kept h b older =
    let target = latest - retention + 1 in
    rw (delete_unretained_history_due refuses latest elder retention rows kept h b older) (
      Cleared-Reaped refuses target rows (clear_before refuses (pos target) rows)
        (clear_before-Cleared refuses target rows (omega arith)))
