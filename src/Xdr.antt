-- ===== src/Xdr.antt =====
-- xdr: the ledger's data types, as far as the other parts read them (xdr_generated.go), and the
-- helpers on keys and changes. An account id is known by its address, an asset code by its text
-- without trailing zeros.
pub mod Keys
pub mod Operation
use text.Mathlib.Text.{◌==◌}
use dfc_api.Base.{ℕ, Bool, true, false, ◌&&◌, List, Option, String}
use dfc_api.Base as Base
use dfc_api.Base.Int.{ℤ}

abbrev pub AccountId : Type 0
AccountId = String

pub data Asset : Type 0 where
  native : Asset
  alphanum4 alphanum12 : String → AccountId → Asset

pub record Price : Type 0 where
  pub n : ℤ
  pub d : ℤ

pub record Signer : Type 0 where
  pub key : String  -- its address
  pub weight : ℕ

pub record AccountEntry : Type 0 where
  pub account_id : AccountId
  pub balance : ℤ
  pub seq_num : ℤ
  pub flags : ℕ
  pub master_weight : ℕ  -- the first threshold
  pub signers : List Signer

pub record TrustLineEntry : Type 0 where
  pub account_id : AccountId
  pub asset : Asset
  pub balance : ℤ
  pub limit : ℤ
  pub flags : ℕ

pub record OfferEntry : Type 0 where
  pub seller_id : AccountId
  pub offer_id : ℕ
  pub selling : Asset
  pub buying : Asset
  pub amount : ℤ
  pub price : Price
  pub flags : ℕ

pub record DataEntry : Type 0 where
  pub account_id : AccountId
  pub data_name : String
  pub data_value : List ℕ

pub data LedgerEntry : Type 0 where
  account : AccountEntry → LedgerEntry
  trust_line : TrustLineEntry → LedgerEntry
  offer : OfferEntry → LedgerEntry
  data_entry : DataEntry → LedgerEntry

pub data LedgerKey : Type 0 where
  account : AccountId → LedgerKey
  trust_line : AccountId → Asset → LedgerKey
  offer : AccountId → ℕ → LedgerKey
  data_entry : AccountId → String → LedgerKey

pub data LedgerEntryChange : Type 0 where
  created updated state : LedgerEntry → LedgerEntryChange
  removed : LedgerKey → LedgerEntryChange

-- The changes of each operation; version 1 has changes of the transaction itself before them.
pub data TransactionMeta : Type 0 where
  v0 : List (List LedgerEntryChange) → TransactionMeta
  v1 : List LedgerEntryChange → List (List LedgerEntryChange) → TransactionMeta

unfoldable pub asset_equals : Asset → Asset → Bool
asset_equals native native = true
asset_equals (alphanum4 c i) (alphanum4 d j) = c == d && i == j
asset_equals (alphanum12 c i) (alphanum12 d j) = c == d && i == j
asset_equals a b = false

unfoldable pub key_equals : LedgerKey → LedgerKey → Bool
unfolding asset_equals
key_equals (LedgerKey.account a) (LedgerKey.account b) = a == b
key_equals (LedgerKey.data_entry a n) (LedgerKey.data_entry b m) = a == b && n == m
key_equals (LedgerKey.offer a i) (LedgerKey.offer b j) = a == b && (Base.◌==◌ i j)
key_equals (LedgerKey.trust_line a c) (LedgerKey.trust_line b d) = a == b && asset_equals c d
key_equals k l = false

unfoldable pub entry_key : LedgerEntry → LedgerKey
entry_key (LedgerEntry.account a) = LedgerKey.account a.account_id
entry_key (LedgerEntry.trust_line t) = LedgerKey.trust_line t.account_id t.asset
entry_key (LedgerEntry.offer o) = LedgerKey.offer o.seller_id o.offer_id
entry_key (LedgerEntry.data_entry d) = LedgerKey.data_entry d.account_id d.data_name

unfoldable pub change_key : LedgerEntryChange → LedgerKey
unfolding entry_key
change_key (created e) = entry_key e
change_key (updated e) = entry_key e
change_key (state e) = entry_key e
change_key (removed k) = k
