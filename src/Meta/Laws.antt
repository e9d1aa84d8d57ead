-- ===== src/Meta/Laws.antt =====
-- The states before and after an operation are those of the ledger.
use mathlib.Core.Path.{subst}
use mathlib.Core.List.{append-nil, append_assoc}
use dfc_api.Base.{get_elem?, false, ℕ, zero, suc, ◌≡◌, sym, ap, ◌∙◌, List, [], ◌∷◌, ◌++◌, some}
use dfc_api.Xdr.{LedgerKey, LedgerEntryChange}
use dfc_api.Meta.{
  tx_changes_of, Bundle, found, filter_changes, operation_changes, all_changes, changes, after_of,
  before_of, state_after, state_before, operations_metas,
}
use dfc_api.Meta.Once.{Once, Once-Split, before-last, after-last}
use dfc_api.Meta.Replay.{
  Ledger, replay, replay_entry, Recorded, replay-filter, replay_entry-append, filter_changes-append,
}

-- The changes before those of operation `opidx`.
unfoldable pub earlier : Bundle → ℕ → List LedgerEntryChange
earlier b opidx =
    b.fee_meta
    ++ (tx_changes_of b.transaction_meta
        ++ operation_changes opidx (operations_metas b.transaction_meta))

operation_changes-suc :
    (n : ℕ) (ops : List (List LedgerEntryChange)) (op : List LedgerEntryChange)
    → get_elem? ops n ≡ some op
    → operation_changes (suc n) ops ≡ operation_changes n ops ++ op
unfolding operation_changes
operation_changes-suc n [] op h = cc
operation_changes-suc zero (o ∷ ops) op h = let same : o ≡ op = cc in rw same (append-nil op)
operation_changes-suc (suc n) (o ∷ ops) op h =
    ap (λ (l : List LedgerEntryChange). o ++ l) (operation_changes-suc n ops op h)
    ∙ sym (append_assoc o _ op)

all_changes-split :
    (b : Bundle) (opidx : ℕ) (op : List LedgerEntryChange)
    → get_elem? (operations_metas b.transaction_meta) opidx ≡ some op
    → all_changes b opidx ≡ earlier b opidx ++ op
unfolding all_changes earlier
all_changes-split b opidx op h =
    rw (operation_changes-suc opidx (operations_metas b.transaction_meta) op h) (simp append_assoc)

-- Where the changes of an entry up to an operation, those of the fee and of the transaction included,
-- fit the entry of a ledger before them, and the operation changes the entry once, the states that are
-- read before and after the operation are those of the ledger to which the changes up to there are
-- applied. A `state` may be missing before an update or a removal that is not the first of the changes.
pub state_lem :
    (b : Bundle) (key : LedgerKey) (opidx : ℕ) (op : List LedgerEntryChange) (ledger : Ledger)
    → get_elem? (operations_metas b.transaction_meta) opidx ≡ some op
    → Recorded false (ledger key) (filter_changes key (earlier b opidx ++ op))
    → Once (filter_changes key op)
    → (state_before b key opidx ≡ found (replay (earlier b opidx) ledger key))
      × (state_after b key opidx ≡ found (replay (earlier b opidx ++ op) ledger key))
unfolding state_before state_after changes
state_lem b key opidx op ledger h r o =
    let cs = filter_changes key (earlier b opidx) in
    let s = Once-Split o in
    let front = cs ++ s.states in
    let parts : filter_changes key (earlier b opidx ++ op) ≡ front ++ s.change ∷ [] =
      filter_changes-append key (earlier b opidx) op
      ∙ ap (λ (l : List LedgerEntryChange). cs ++ l) s.whole
      ∙ sym (append_assoc cs s.states (s.change ∷ [])) in
    let split : filter_changes key (all_changes b opidx) ≡ front ++ s.change ∷ [] =
      ap (filter_changes key) (all_changes-split b opidx op h) ∙ parts in
    let before : replay (earlier b opidx) ledger key ≡ replay_entry front (ledger key) =
      replay-filter (earlier b opidx) ledger key
      ∙ sym (s.idle (replay_entry cs (ledger key)))
      ∙ sym (replay_entry-append cs s.states (ledger key)) in
    let after : replay (earlier b opidx ++ op) ledger key
        ≡ replay_entry (front ++ s.change ∷ []) (ledger key) =
      replay-filter (earlier b opidx ++ op) ledger key
      ∙ ap (λ (l : List LedgerEntryChange). replay_entry l (ledger key)) parts in
    let recorded = subst (Recorded false (ledger key)) parts r in
    (
      ap before_of split
          ∙ before-last front s.change (ledger key) s.is_last recorded
          ∙ ap found (sym before),
      ap after_of split ∙ after-last front s.change (ledger key) s.is_last ∙ ap found (sym after),
    )
