-- ===== src/Ingest/Participants.antt =====
-- services/horizon/internal/ingest/participants/main.go: the accounts that take part in an operation
-- and in a transaction.
pub mod Laws
use text.Mathlib.Text.{◌==◌}
use dfc_api.Base.{Bool, false, ◌||◌, List, [], ◌∷◌, ◌++◌, Option, none, some, if◌then◌else◌, String}
use dfc_api.Base.Map.{insert, keys}
use dfc_api.Xdr.{
  AccountId, LedgerEntry, LedgerKey, LedgerEntryChange, created, updated, state, removed,
  TransactionMeta, v0, v1, AccountEntry,
}
use dfc_api.Xdr.Operation.{Operation, OperationBody, PathPaymentOp, Transaction}

-- The map from addresses to accounts is left out: an account is its address.
unfoldable pub collect : List AccountId → List (String × AccountId) → List (String × AccountId)
collect [] set = set
collect (id ∷ ids) set = collect ids (insert id id set)

unfoldable pub dedupe : List AccountId → List AccountId
unfolding collect
dedupe ids = keys (collect ids [])

unfoldable pub or_source : Option AccountId → AccountId → AccountId
or_source none source = source
or_source (some a) source = a

-- The direct participants other than the source.
unfoldable pub body_participants : OperationBody → List AccountId
body_participants (OperationBody.create_account destination balance) = destination ∷ []
body_participants (OperationBody.payment destination asset n) = destination ∷ []
body_participants (OperationBody.path_payment op) = op.destination ∷ []
body_participants (OperationBody.manage_offer op) = []
body_participants (OperationBody.create_passive_offer op) = []
body_participants (OperationBody.set_options op) = []
body_participants (OperationBody.change_trust line limit) = []
body_participants (OperationBody.allow_trust trustor code authorize) = trustor ∷ []
body_participants (OperationBody.account_merge destination) = destination ∷ []
body_participants OperationBody.inflation = []
body_participants (OperationBody.manage_data name value) = []
body_participants (OperationBody.bump_sequence to) = []

unfoldable pub for_operation : AccountId → Operation → List AccountId
unfolding dedupe or_source body_participants
for_operation source op = dedupe (or_source op.source_account source ∷ body_participants op.body)

unfoldable pub for_ledger_entry : LedgerEntry → Option AccountId
for_ledger_entry (LedgerEntry.account a) = some a.account_id
for_ledger_entry e = none

unfoldable pub for_ledger_key : LedgerKey → Option AccountId
for_ledger_key (LedgerKey.account a) = some a
for_ledger_key k = none

unfoldable pub for_change : LedgerEntryChange → Option AccountId
unfolding for_ledger_entry for_ledger_key
for_change (created e) = for_ledger_entry e
for_change (removed k) = for_ledger_key k
for_change (updated e) = for_ledger_entry e
for_change (state e) = for_ledger_entry e

unfoldable pub cons_some {ℓ} : {A : Type ℓ} → Option A → List A → List A
cons_some none xs = xs
cons_some (some x) xs = x ∷ xs

unfoldable pub for_changes : List LedgerEntryChange → List AccountId
unfolding for_change cons_some
for_changes [] = []
for_changes (c ∷ cs) = cons_some (for_change c) (for_changes cs)

unfoldable pub for_metas : List (List LedgerEntryChange) → List AccountId
unfolding for_changes
for_metas [] = []
for_metas (op ∷ ops) = for_changes op ++ for_metas ops

-- A meta of version 1 has no `Operations`, which the function reads.
unfoldable pub for_meta : TransactionMeta → List AccountId
unfolding for_metas
for_meta (v0 ops) = for_metas ops
for_meta (v1 tx_changes ops) = []

unfoldable pub for_operations : AccountId → List Operation → List AccountId
unfolding for_operation
for_operations source [] = []
for_operations source (op ∷ ops) = for_operation source op ++ for_operations source ops

unfoldable pub for_transaction : Transaction → List AccountId
unfolding dedupe for_meta for_changes for_operations
for_transaction tx = dedupe (
    tx.source_account
    ∷ (for_meta tx.result_meta
        ++ (for_changes tx.fee_changes ++ for_operations tx.source_account tx.operations)))
