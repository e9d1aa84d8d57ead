-- ===== src/Examples/Metas.antt =====
-- The bundle createAccount of meta/bundle_test.go: the fee updates the master account, and the
-- operation creates an account and updates the master account without a `state` before it.
use dfc_api.Base.{ℕ, ◌≡◌, refl, List, [], ◌∷◌, ◌++◌, ◌*◌, ◌-◌, ◌^◌, none, some, if◌then◌else◌}
use dfc_api.Base.Int.{pos}
use dfc_api.Xdr.{
  LedgerEntry, LedgerKey, LedgerEntryChange, created, updated, state, v0, key_equals, change_key,
}
use dfc_api.Meta.{
  Bundle, operations_metas, tx_changes_of, operation_changes, found, state_before, state_after,
  filter_changes,
}
use dfc_api.Meta.Replay.{Ledger, replay}
use dfc_api.Meta.Once.{update}
use dfc_api.Meta.Laws.{earlier, state_lem}

-- The master account, with a balance and a sequence number.
abbrev master : ℕ → ℕ → LedgerEntry
master n seq = LedgerEntry.account (record {
  account_id = "GBRP";
  balance = pos n;
  seq_num = pos seq;
  flags = 0;
  master_weight = 1;
  signers = [];
})

abbrev new_account : LedgerEntry
new_account = LedgerEntry.account (record {
  account_id = "GCXK";
  balance = pos (10 ^ 9);
  seq_num = pos (2 * 2 ^ 32);
  flags = 0;
  master_weight = 1;
  signers = [];
})

abbrev fee : List LedgerEntryChange
fee = state (master (10 ^ 18) 0) ∷ updated (master (10 ^ 18 - 100) 1) ∷ []

abbrev creation : List LedgerEntryChange
creation = created new_account ∷ updated (master (10 ^ 18 - 10 ^ 9 - 300) 3) ∷ []

abbrev create_account : Bundle
create_account = record { fee_meta = fee; transaction_meta = v0 (creation ∷ []) }

abbrev master_alone : Ledger
master_alone k = if key_equals (LedgerKey.account "GBRP") k then some (master (10 ^ 18) 0) else none

state_lem_example :
    (state_before create_account (LedgerKey.account "GBRP") 0
      ≡ found (replay (earlier create_account 0) master_alone (LedgerKey.account "GBRP")))
    × (state_after create_account (LedgerKey.account "GBRP") 0
        ≡ found
            (replay (earlier create_account 0 ++ creation) master_alone (LedgerKey.account "GBRP")))
unfolding filter_changes earlier replay operations_metas key_equals change_key tx_changes_of
    operation_changes
state_lem_example =
    state_lem create_account (LedgerKey.account "GBRP") 0 creation master_alone refl
      (refl, (refl, (refl, tt))) (update (master (10 ^ 18 - 10 ^ 9 - 300) 3))
