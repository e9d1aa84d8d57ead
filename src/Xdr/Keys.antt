-- ===== src/Xdr/Keys.antt =====
-- The equality of keys decides when two keys are the same.
use text.Mathlib.TextEquality.{eq_iff}
use dfc_api.Base.{◌≡◌, ◌↔◌, true, arith}
use dfc_api.Xdr.{
  Asset, native, alphanum4, alphanum12, LedgerKey, account, trust_line, offer, data_entry,
  asset_equals, key_equals,
}

pub asset_equals_iff : (a b : Asset) → (asset_equals a b ≡ true) ↔ (a ≡ b)
unfolding asset_equals
asset_equals_iff (alphanum4 c i) (alphanum4 d j) = ground (arith, eq_iff c d, eq_iff i j)
asset_equals_iff (alphanum12 c i) (alphanum12 d j) = ground (arith, eq_iff c d, eq_iff i j)
asset_equals_iff native native = ground arith
asset_equals_iff native (alphanum4 d j) = ground arith
asset_equals_iff native (alphanum12 d j) = ground arith
asset_equals_iff (alphanum4 c i) native = ground arith
asset_equals_iff (alphanum4 c i) (alphanum12 d j) = ground arith
asset_equals_iff (alphanum12 c i) native = ground arith
asset_equals_iff (alphanum12 c i) (alphanum4 d j) = ground arith

pub key_equals_iff : (k l : LedgerKey) → (key_equals k l ≡ true) ↔ (k ≡ l)
unfolding key_equals
key_equals_iff (account a) (account b) = ground (arith, eq_iff a b)
key_equals_iff (data_entry a n) (data_entry b m) = ground (arith, eq_iff a b, eq_iff n m)
key_equals_iff (offer a i) (offer b j) = ground (arith, eq_iff a b)
key_equals_iff (trust_line a c) (trust_line b d) = ground (arith, eq_iff a b, asset_equals_iff c d)
key_equals_iff (account a) (trust_line b d) = ground arith
key_equals_iff (account a) (offer b j) = ground arith
key_equals_iff (account a) (data_entry b m) = ground arith
key_equals_iff (trust_line a c) (account b) = ground arith
key_equals_iff (trust_line a c) (offer b j) = ground arith
key_equals_iff (trust_line a c) (data_entry b m) = ground arith
key_equals_iff (offer a i) (account b) = ground arith
key_equals_iff (offer a i) (trust_line b d) = ground arith
key_equals_iff (offer a i) (data_entry b m) = ground arith
key_equals_iff (data_entry a n) (account b) = ground arith
key_equals_iff (data_entry a n) (trust_line b d) = ground arith
key_equals_iff (data_entry a n) (offer b j) = ground arith
