-- ===== src/Meta.antt =====
-- meta/bundle.go and meta/main.go: the state of a ledger entry before and after an operation, read
-- from the changes that a transaction left.
pub mod Replay
pub mod Once
pub mod Laws
use dfc_api.Base.{ℕ, zero, suc, List, [], ◌∷◌, ◌++◌, Option, none, some, ◌^◌, ◌-◌, if◌then◌else◌}
use dfc_api.Xdr.{
  LedgerEntry, LedgerKey, LedgerEntryChange, created, updated, state, removed, TransactionMeta, v0,
  v1, key_equals, change_key,
}

pub record Bundle : Type 0 where
  pub fee_meta : List LedgerEntryChange
  pub transaction_meta : TransactionMeta

-- A nil entry is `found none`. `unexpected_state` is the panic.
pub data Found : Type 0 where
  meta_not_found : Found
  unexpected_state : Found
  found : Option LedgerEntry → Found

unfoldable pub operations_metas : TransactionMeta → List (List LedgerEntryChange)
operations_metas (v0 ops) = ops
operations_metas (v1 tx_changes ops) = ops

unfoldable pub tx_changes_of : TransactionMeta → List LedgerEntryChange
tx_changes_of (v0 ops) = []
tx_changes_of (v1 tx_changes ops) = tx_changes

unfoldable pub filter_changes : LedgerKey → List LedgerEntryChange → List LedgerEntryChange
filter_changes target [] = []
filter_changes target (c ∷ cs) =
    let rest = filter_changes target cs in
    if key_equals (change_key c) target then c ∷ rest else rest

-- The changes of the operations up to index `max_op`, one more than which is the first argument.
unfoldable pub operation_changes : ℕ → List (List LedgerEntryChange) → List LedgerEntryChange
operation_changes zero ops = []
operation_changes (suc n) [] = []
operation_changes (suc n) (op ∷ ops) = op ++ operation_changes n ops

-- All changes at or before operation `max_op`, those of the fee and of the transaction first.
unfoldable pub all_changes : Bundle → ℕ → List LedgerEntryChange
unfolding operations_metas tx_changes_of operation_changes
all_changes b max_op =
    b.fee_meta
    ++ (tx_changes_of b.transaction_meta
        ++ operation_changes (suc max_op) (operations_metas b.transaction_meta))

unfoldable pub changes : Bundle → LedgerKey → ℕ → List LedgerEntryChange
unfolding all_changes filter_changes
changes b target max_op = filter_changes target (all_changes b max_op)

unfoldable pub last_of : LedgerEntryChange → List LedgerEntryChange → LedgerEntryChange
last_of c [] = c
last_of c (d ∷ cs) = last_of d cs

-- The change before the last of two or more.
unfoldable pub second_last :
    LedgerEntryChange → LedgerEntryChange → List LedgerEntryChange → LedgerEntryChange
second_last c d [] = c
second_last c d (e ∷ cs) = second_last d e cs

unfoldable pub entry_after : LedgerEntryChange → Found
entry_after (created e) = found (some e)
entry_after (removed k) = found none
entry_after (updated e) = found (some e)
entry_after (state e) = unexpected_state

unfoldable pub entry_before : LedgerEntryChange → Found
entry_before (created e) = found (some e)
entry_before (removed k) = found none
entry_before (updated e) = found (some e)
entry_before (state e) = found (some e)

unfoldable pub after_of : List LedgerEntryChange → Found
unfolding last_of entry_after
after_of [] = meta_not_found
after_of (c ∷ cs) = entry_after (last_of c cs)

unfoldable pub before_of : List LedgerEntryChange → Found
unfolding second_last entry_before
before_of [] = meta_not_found
before_of (c ∷ []) = found none
before_of (c ∷ d ∷ cs) = entry_before (second_last c d cs)

unfoldable pub state_after : Bundle → LedgerKey → ℕ → Found
unfolding changes after_of
state_after b key opidx = after_of (changes b key opidx)

unfoldable pub state_before : Bundle → LedgerKey → ℕ → Found
unfolding changes before_of
state_before b key opidx = before_of (changes b key opidx)

unfoldable pub initial_of : List LedgerEntryChange → Found
initial_of [] = meta_not_found
initial_of (state e ∷ cs) = found (some e)
initial_of (c ∷ cs) = found none

-- All operations are below the largest int32.
unfoldable pub initial_state : Bundle → LedgerKey → Found
unfolding changes initial_of
initial_state b key = initial_of (changes b key (2 ^ 31 - 1))
