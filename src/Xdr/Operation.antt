-- ===== src/Xdr/Operation.antt =====
-- xdr: operations and their results. An enum value that the XDR does not know is not decoded, so the
-- `default` branches on operation types have no case here.
use text.Mathlib.Text.{◌==◌}
use dfc_api.Base.{ℕ, ◌^◌, Bool, List, [], ◌∷◌, Option, String, if◌then◌else◌}
use dfc_api.Base.Int.{ℤ, pos, ◌+ℤ◌, wrap, int64}
use dfc_api.Xdr.{
  AccountId, Asset, native, alphanum4, alphanum12, Price, Signer, OfferEntry, TransactionMeta,
  LedgerEntryChange,
}

-- The code that `allow_trust` names, of an asset that its source issues.
pub data AssetCode : Type 0 where
  code4 code12 : String → AssetCode

unfoldable pub to_asset : AssetCode → AccountId → Asset
to_asset (code4 c) issuer = alphanum4 c issuer
to_asset (code12 c) issuer = alphanum12 c issuer

pub record PathPaymentOp : Type 0 where
  pub send_asset : Asset
  pub send_max : ℤ
  pub destination : AccountId
  pub dest_asset : Asset
  pub dest_amount : ℤ
  pub path : List Asset

pub record ManageOfferOp : Type 0 where
  pub selling : Asset
  pub buying : Asset
  pub amount : ℤ
  pub price : Price
  pub offer_id : ℕ

pub record CreatePassiveOfferOp : Type 0 where
  pub selling : Asset
  pub buying : Asset
  pub amount : ℤ
  pub price : Price

pub record SetOptionsOp : Type 0 where
  pub inflation_dest : Option AccountId
  pub clear_flags : Option ℕ
  pub set_flags : Option ℕ
  pub master_weight : Option ℕ
  pub low_threshold : Option ℕ
  pub med_threshold : Option ℕ
  pub high_threshold : Option ℕ
  pub home_domain : Option String
  pub signer : Option Signer

pub data OperationBody : Type 0 where
  create_account : AccountId → ℤ → OperationBody
  payment : AccountId → Asset → ℤ → OperationBody
  path_payment : PathPaymentOp → OperationBody
  manage_offer : ManageOfferOp → OperationBody
  create_passive_offer : CreatePassiveOfferOp → OperationBody
  set_options : SetOptionsOp → OperationBody
  change_trust : Asset → ℤ → OperationBody
  allow_trust : AccountId → AssetCode → Bool → OperationBody
  account_merge : AccountId → OperationBody
  inflation : OperationBody
  manage_data : String → Option (List ℕ) → OperationBody
  bump_sequence : ℤ → OperationBody

pub record Operation : Type 0 where
  pub source_account : Option AccountId
  pub body : OperationBody

pub record ClaimOfferAtom : Type 0 where
  pub seller_id : AccountId
  pub offer_id : ℕ
  pub asset_sold : Asset
  pub amount_sold : ℤ
  pub asset_bought : Asset
  pub amount_bought : ℤ

-- The successful results that are read; any other result is `other`.
pub data OperationResult : Type 0 where
  path_payment : List ClaimOfferAtom → ℤ → OperationResult  -- with the last amount
  manage_offer : List ClaimOfferAtom → Option OfferEntry → OperationResult
  create_passive_offer : List ClaimOfferAtom → Option OfferEntry → OperationResult
  account_merge : ℤ → OperationResult
  inflation : List (AccountId × ℤ) → OperationResult
  other : OperationResult

unfoldable pub asset_string : Asset → String × (String × String)
asset_string native = ("native", ("", ""))
asset_string (alphanum4 c i) = ("credit_alphanum4", (c, i))
asset_string (alphanum12 c i) = ("credit_alphanum12", (c, i))

-- Whether two assets print alike. The parts of the print are compared: no part has a slash.
unfoldable pub prints_alike : Asset → Asset → Bool
unfolding asset_string
prints_alike a b =
    let (t, (c, i)) = asset_string a in
    let (u, (d, j)) = asset_string b in
    if t == u then (if c == d then i == j else (c == d)) else (t == u)

-- The loop of `SendAmount`; the sum is an int64.
unfoldable pub send_sum : Asset → ℤ → List ClaimOfferAtom → ℤ
unfolding prints_alike
send_sum first sum [] = sum
send_sum first sum (o ∷ offers) =
    let rest = send_sum first (int64 (wrap (2 ^ 64) (sum +ℤ o.amount_bought))) offers in
    if prints_alike o.asset_bought first then rest else sum

unfoldable pub send_amount : List ClaimOfferAtom → ℤ → ℤ
unfolding send_sum
send_amount [] last = last
send_amount (o ∷ offers) last = send_sum o.asset_bought (pos 0) (o ∷ offers)

-- A transaction of a ledger with its result, its meta and the changes of its fee.
pub record Transaction : Type 0 where
  pub transaction_hash : String
  pub source_account : AccountId
  pub operations : List Operation
  pub successful : Bool
  pub results : List OperationResult
  pub result_meta : TransactionMeta
  pub fee_changes : List LedgerEntryChange
