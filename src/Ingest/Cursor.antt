-- ===== src/Ingest/Cursor.antt =====
-- services/horizon/internal/ingest/cursor.go: the iteration over the ledgers of the core database,
-- and the ids of what it visits.
pub mod Iteration
pub mod Below
use dfc_api.Base.{
  ℕ, suc, ◌+◌, ◌%◌, ◌^◌, Bool, true, false, not, ◌&&◌, ◌||◌, List, [], ◌∷◌, Option, none, some,
  length, if◌then◌else◌,
}
use dfc_api.Base.Int.{ℤ, pos, ◌-ℤ◌, ◌+ℤ◌, ltb_ℤ, leb_ℤ, wrap, int32}
use dfc_api.Toid.{new, to_int64, increment}
use dfc_api.Xdr.{AccountId, LedgerEntry, LedgerKey}
use dfc_api.Xdr.Operation.{Operation, Transaction}
use dfc_api.Meta.{Bundle, Found, meta_not_found, unexpected_state, found, state_before, state_after}
use dfc_api.Ingest.Outcome as Outcome
use dfc_api.Ingest.Outcome.{Outcome, Err, done, failed, panicked, ◌>>=◌}

-- A ledger with its transactions, each of them with the changes of its fee.
pub record LedgerBundle : Type 0 where
  pub sequence : ℤ
  pub close_time : ℤ
  pub transactions : List Transaction

-- The sequences are int32. A cursor between iterations has `lg` 0. The indices of the current
-- transaction and operation are passed beside the cursor.
pub record Cursor : Type 0 where
  pub first_ledger : ℤ
  pub last_ledger : ℤ
  pub lg : ℤ

unfoldable pub new_cursor : ℤ → ℤ → Cursor
new_cursor first last = record { first_ledger = first; last_ledger = last; lg = pos 0 }

unfoldable pub is_reverse : Cursor → Bool
is_reverse c = ltb_ℤ c.last_ledger c.first_ledger

unfoldable pub same : ℤ → ℤ → Bool
same a b = leb_ℤ a b && leb_ℤ b a

unfoldable pub in_ledger : Cursor → Bool
unfolding same
in_ledger c = not (same c.lg (pos 0))

-- The sequence after that of the cursor, which wraps.
unfoldable pub next_lg : Cursor → ℤ
unfolding is_reverse increment in_ledger
next_lg c =
    if in_ledger c
    then (if is_reverse c then int32 (wrap (2 ^ 32) (c.lg -ℤ pos 1)) else increment c.lg)
    else c.first_ledger

-- Past the last ledger the cursor is reset, and the iteration ends.
unfoldable pub increment_lg : Cursor → Bool × Cursor
unfolding is_reverse next_lg
increment_lg c =
    let lg = next_lg c in
    let reverse = is_reverse c in
    if (not reverse && ltb_ℤ c.last_ledger lg) || (reverse && ltb_ℤ lg c.last_ledger)
    then (false, record c { lg = pos 0 })
    else (true, record c { lg = lg })

-- How a call of `NextLedger` ends: on a ledger, at the end, or with an error of the load.
pub data Next : Type 0 where
  on_ledger : LedgerBundle → Cursor → Next
  complete : Cursor → Next
  stopped : Err → Cursor → Next
  broken : Next

unfoldable pub loaded : Outcome LedgerBundle → Cursor → Next
loaded (done bundle) c = on_ledger bundle c
loaded (failed e) c = stopped e c
loaded panicked c = broken

-- A call without an error before it. `load` reads a ledger of the core database.
unfoldable pub next_ledger : (ℤ → Outcome LedgerBundle) → Cursor → Next
unfolding increment_lg loaded
next_ledger load c =
    let (more, next) = increment_lg c in if more then loaded (load next.lg) next else complete next

unfoldable pub identified : Option ℤ → Outcome ℤ
identified none = panicked
identified (some id) = done id

-- `int32(i + 1)` of an index.
unfoldable pub order_of : ℕ → ℤ
order_of i = int32 (suc i % 2 ^ 32)

unfoldable pub ledger_id : Cursor → Outcome ℤ
unfolding identified
ledger_id c = identified (to_int64 (new c.lg (pos 0) (pos 0)))

unfoldable pub ledger_range : Cursor → Outcome (ℤ × ℤ)
unfolding ledger_id identified increment same
ledger_range c = do
  start ← (if same c.lg (pos 1) then done (pos 0) else ledger_id c)
  end ← identified (to_int64 (new (increment c.lg) (pos 0) (pos 0)))
  done (start, end)

unfoldable pub transaction_id : Cursor → ℕ → Outcome ℤ
unfolding identified order_of
transaction_id c tx = identified (to_int64 (new c.lg (order_of tx) (pos 0)))

unfoldable pub operation_id : Cursor → ℕ → ℕ → Outcome ℤ
unfolding identified order_of
operation_id c tx op = identified (to_int64 (new c.lg (order_of tx) (order_of op)))

unfoldable pub transaction_meta_bundle : Transaction → Bundle
transaction_meta_bundle t = record { fee_meta = t.fee_changes; transaction_meta = t.result_meta }

unfoldable pub outcome_of : Found → Outcome (Option LedgerEntry)
outcome_of meta_not_found = failed Err.meta_not_found
outcome_of unexpected_state = panicked
outcome_of (found e) = done e

unfoldable pub before_and_after :
    Transaction → ℕ → LedgerKey → Outcome (Option LedgerEntry × Option LedgerEntry)
unfolding transaction_meta_bundle outcome_of
before_and_after t op target = do
  before ← outcome_of (state_before (transaction_meta_bundle t) target op)
  after ← outcome_of (state_after (transaction_meta_bundle t) target op)
  done (before, after)

unfoldable pub operation_source_account : Transaction → Operation → AccountId
operation_source_account t o = elim o.source_account [ none ↦ t.source_account | some aid ↦ aid ]

unfoldable pub successful_transaction_count : List Transaction → ℕ
successful_transaction_count [] = 0
successful_transaction_count (t ∷ ts) =
    let rest = successful_transaction_count ts in if t.successful then suc rest else rest

unfoldable pub failed_transaction_count : List Transaction → ℕ
failed_transaction_count [] = 0
failed_transaction_count (t ∷ ts) =
    let rest = failed_transaction_count ts in if t.successful then rest else suc rest

unfoldable pub successful_ledger_operation_count : List Transaction → ℕ
successful_ledger_operation_count [] = 0
successful_ledger_operation_count (t ∷ ts) =
    let rest = successful_ledger_operation_count ts in
    if t.successful then length t.operations + rest else rest
