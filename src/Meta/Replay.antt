-- ===== src/Meta/Replay.antt =====
-- What changes do to a ledger, and which changes fit the entry that they start from.
use dfc_api.Base.{
  ap, sym, ◌∙◌, ◌≡◌, List, [], ◌∷◌, ◌++◌, Option, none, some, if◌then◌else◌, refl, arith, Bool,
  Bool-cases, true, false, inl, inr,
}
use dfc_api.Xdr.{
  LedgerEntry, LedgerKey, LedgerEntryChange, created, updated, state, removed, key_equals,
  entry_key, change_key,
}
use dfc_api.Meta.{filter_changes}

abbrev pub Ledger : Type 0
Ledger = LedgerKey → Option LedgerEntry

unfoldable pub put : LedgerKey → Option LedgerEntry → Ledger → Ledger
put k e ledger l = if key_equals k l then e else ledger l

-- A `state` only records what is there.
unfoldable pub apply : LedgerEntryChange → Ledger → Ledger
unfolding put
apply (created e) ledger = put (entry_key e) (some e) ledger
apply (updated e) ledger = put (entry_key e) (some e) ledger
apply (removed k) ledger = put k none ledger
apply (state e) ledger = ledger

unfoldable pub replay : List LedgerEntryChange → Ledger → Ledger
unfolding apply
replay [] ledger = ledger
replay (c ∷ cs) ledger = replay cs (apply c ledger)

-- The same for one entry.
unfoldable pub replay_entry : List LedgerEntryChange → Option LedgerEntry → Option LedgerEntry
replay_entry [] e = e
replay_entry (created e ∷ cs) old = replay_entry cs (some e)
replay_entry (updated e ∷ cs) old = replay_entry cs (some e)
replay_entry (removed k ∷ cs) old = replay_entry cs none
replay_entry (state e ∷ cs) old = replay_entry cs old

-- Changes of one entry that fit the entry that they start from. A `state` tells what is there, a
-- creation has no entry before it, and an update or a removal has another change of the entry before
-- it, that of the fee for example; `seen` tells whether there has been one.
abbrev pub Recorded : Bool → Option LedgerEntry → List LedgerEntryChange → Type 0
Recorded seen old [] = Unit
Recorded seen old (created e ∷ cs) = (old ≡ none) × Recorded true (some e) cs
Recorded seen old (state e ∷ cs) = (old ≡ some e) × Recorded true old cs
Recorded seen old (updated e ∷ cs) = (seen ≡ true) × Recorded true (some e) cs
Recorded seen old (removed k ∷ cs) = (seen ≡ true) × Recorded true none cs

apply_same :
    (c : LedgerEntryChange) (cs : List LedgerEntryChange) (ledger : Ledger) (k : LedgerKey)
    → key_equals (change_key c) k ≡ true
    → replay_entry (c ∷ cs) (ledger k) ≡ replay_entry cs (apply c ledger k)
unfolding replay_entry apply change_key
apply_same (created e) cs ledger k same = rw same
apply_same (updated e) cs ledger k same = rw same
apply_same (removed j) cs ledger k same = rw same
apply_same (state e) cs ledger k same = refl

apply_other :
    (c : LedgerEntryChange) (ledger : Ledger) (k : LedgerKey)
    → key_equals (change_key c) k ≡ false
    → apply c ledger k ≡ ledger k
unfolding apply change_key
apply_other (created e) ledger k other = rw other
apply_other (updated e) ledger k other = rw other
apply_other (removed j) ledger k other = rw other
apply_other (state e) ledger k other = refl

-- The changes of one key are all that matters for the entry of that key.
pub replay-filter :
    (cs : List LedgerEntryChange) (ledger : Ledger) (k : LedgerKey)
    → replay cs ledger k ≡ replay_entry (filter_changes k cs) (ledger k)
unfolding replay filter_changes
replay-filter [] ledger k = unfold replay_entry in refl
replay-filter (c ∷ cs) ledger k = elim (Bool-cases (key_equals (change_key c) k)) [
  | inl same ↦ rw same (replay-filter cs (apply c ledger) k ∙ sym (apply_same c cs' ledger k same))
  | inr other ↦
      rw other
        (replay-filter cs (apply c ledger) k ∙ ap (replay_entry cs') (apply_other c ledger k other))
]
  where
    cs' : List LedgerEntryChange
    cs' = filter_changes k cs

pub replay_entry-append :
    (cs ds : List LedgerEntryChange) (old : Option LedgerEntry)
    → replay_entry (cs ++ ds) old ≡ replay_entry ds (replay_entry cs old)
unfolding replay_entry
replay_entry-append [] ds old = refl
replay_entry-append (created e ∷ cs) ds old = replay_entry-append cs ds (some e)
replay_entry-append (updated e ∷ cs) ds old = replay_entry-append cs ds (some e)
replay_entry-append (removed k ∷ cs) ds old = replay_entry-append cs ds none
replay_entry-append (state e ∷ cs) ds old = replay_entry-append cs ds old

pub filter_changes-append :
    (k : LedgerKey) (cs ds : List LedgerEntryChange)
    → filter_changes k (cs ++ ds) ≡ filter_changes k cs ++ filter_changes k ds
unfolding filter_changes
filter_changes-append k [] ds = refl
filter_changes-append k (c ∷ cs) ds = ground (arith, filter_changes-append k cs ds)
