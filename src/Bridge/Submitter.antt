-- ===== src/Bridge/Submitter.antt =====
-- services/bridge/internal/submitter/transaction_submitter.go: sequence numbers and the records of the
-- sent transactions. The transaction that is signed is known by its sequence number.
pub mod Laws
use dfc_api.Base.{
  ℕ, suc, ◌+◌, ◌%◌, ◌^◌, Bool, true, false, not, List, [], ◌∷◌, ◌++◌, Option, none, some, String,
  if◌then◌else◌,
}
use dfc_api.Base.Map.{lookup, insert}

pub record Account : Type 0 where
  pub address : String
  pub sequence_number : ℕ

pub data Status : Type 0 where
  sending success failure : Status

pub record SentTransaction : Type 0 where
  pub source : String
  pub sequence : ℕ
  pub status : Status

-- The accounts by their seeds, and the table of sent transactions.
pub record Submitter : Type 0 where
  pub accounts : List (String × Account)
  pub sent : List SentTransaction

pub data Err : Type 0 where
  invalid_seed load_failed hash_failed insert_failed submit_failed update_failed : Err
  horizon_error build_failed : Err

pub data Reply : Type 0 where
  accepted : Reply
  refused : Err → Reply

-- How the network answers: `rejected` is a Horizon error, with whether its code is tx_bad_seq.
pub data Submitted : Type 0 where
  applied : Submitted
  unreachable : Submitted
  rejected : Bool → Submitted

-- The answers during one call: the account's sequence number when it is loaded and when it is loaded
-- again, whether the transaction is signed, encoded, inserted and updated, and what the network says.
pub record Answers : Type 0 where
  pub load : Option ℕ
  pub encoded : Bool
  pub inserted : Bool
  pub submission : Submitted
  pub updated : Bool
  pub reload : Option ℕ

-- A new account stays in the map when its sequence number does not load.
unfoldable pub load_account :
    (String → Option String) → Option ℕ → String → Submitter → Submitter × Option Err
load_account parse load seed s = elim (lookup seed s.accounts) [
  | some account ↦ (s, none)
  | none ↦ elim (parse seed) [
    | none ↦ (s, some invalid_seed)
    | some address ↦ elim load [
      | none ↦ (
        record s {
          accounts = insert seed (record { address = address; sequence_number = 0 }) s.accounts;
        },
        some load_failed,
      )
      | some n ↦ (
        record s {
          accounts = insert seed (record { address = address; sequence_number = n }) s.accounts;
        },
        none,
      )
    ]
  ]
]

-- The status of the transaction that was sent last.
unfoldable pub with_status : Status → List SentTransaction → List SentTransaction
with_status status [] = []
with_status status (t ∷ ts) = record t { status = status } ∷ ts

unfoldable pub set_sequence : String → Account → ℕ → Submitter → Submitter
set_sequence seed account n s = record s {
  accounts = insert seed (record account { sequence_number = n }) s.accounts;
}

-- A sequence number that does not load stays as it is.
unfoldable pub resync : String → Account → Bool → Option ℕ → Submitter → Submitter
unfolding set_sequence
resync seed account true (some n) s = set_sequence seed account n s
resync seed account true none s = s
resync seed account false reload s = s

-- From the answer of the network on.
unfoldable pub settle : String → Account → Answers → Submitted → Submitter → Submitter × Reply
unfolding with_status resync
settle seed account o unreachable s = (s, refused submit_failed)
settle seed account o applied s =
    if o.updated
    then (record s { sent = with_status success s.sent }, accepted)
    else (s, refused update_failed)
settle seed account o (rejected bad_seq) s =
    if o.updated
    then (
      resync seed account bad_seq o.reload (record s { sent = with_status failure s.sent }),
      refused horizon_error,
    )
    else (s, refused update_failed)

-- From the loaded account on. The sequence number counts up also when nothing is sent.
unfoldable pub send : String → Account → Answers → Submitter → Submitter × Reply
unfolding settle set_sequence
send seed account o s =
    let n = suc account.sequence_number % 2 ^ 64 in
    let account' = record account { sequence_number = n } in
    let counted = set_sequence seed account n s in
    let recorded = record counted {
      sent = record { source = account.address; sequence = n; status = sending } ∷ s.sent;
    } in
    if not o.encoded
    then (counted, refused hash_failed)
    else if not o.inserted
    then (counted, refused insert_failed)
    else settle seed account' o o.submission recorded

-- From the entry of the account in the map on, which a load without an error leaves there.
unfoldable pub send_account : String → Answers → Submitter → Option Account → Submitter × Reply
unfolding send
send_account seed o s none = (s, refused load_failed)
send_account seed o s (some account) = send seed account o s

unfoldable pub send_loaded : String → Answers → Submitter × Option Err → Submitter × Reply
unfolding send_account
send_loaded seed o (s, some e) = (s, refused e)
send_loaded seed o (s, none) = send_account seed o s (lookup seed s.accounts)

unfoldable pub sign_and_submit :
    (String → Option String) → Answers → String → Submitter → Submitter × Reply
unfolding load_account send_loaded
sign_and_submit parse o seed s = send_loaded seed o (load_account parse o.load seed s)

-- `SubmitTransaction`, where `built` is whether the operation and the memo build a transaction.
unfoldable pub submit_transaction :
    (String → Option String) → Bool → Answers → String → Submitter → Submitter × Reply
unfolding sign_and_submit
submit_transaction parse built o seed s =
    let (loaded, err) = load_account parse o.load seed s in
    elim err [
      | some e ↦ (loaded, refused e)
      | none ↦ if built then sign_and_submit parse o seed loaded else (loaded, refused build_failed)
    ]
