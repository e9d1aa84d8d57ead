-- ===== src/Ingest/Effects.antt =====
-- services/horizon/internal/ingest/session.go (`ingestEffects` and its helpers) and
-- effect_ingestion.go: the effects of one operation of a successful transaction.
pub mod Body
pub mod Signers
use Prim.Native.String as Str
use dfc_api.Base.{
  ℕ, suc, ◌+◌, ◌/◌, ◌%◌, Bool, true, false, ◌&&◌, List, [], ◌∷◌, ◌++◌, Option, none, some, String,
  if◌then◌else◌, ltb, ◌==◌, ◌^◌,
}
use dfc_api.Base.Int.{ℤ, pos, negsuc, int32, leb_ℤ}
use dfc_api.Base.Map.{lookup, insert}
use dfc_api.Xdr.{
  AccountId, Asset, native, alphanum4, alphanum12, Price, Signer, AccountEntry, DataEntry,
  LedgerEntry, LedgerKey,
}
use dfc_api.Xdr.Operation.{
  OperationBody, OperationResult, ClaimOfferAtom, SetOptionsOp, to_asset, send_amount,
}
use dfc_api.Meta.{Found, meta_not_found, unexpected_state, found}
use dfc_api.Ingest.Outcome.{Outcome, done, failed, panicked, ◌>>=◌}

-- The values of details. An `amount` stands for its text with seven decimals, a `price` for its.
pub data Value : Type 0 where
  text : String → Value
  amount integer : ℤ → Value
  number : ℕ → Value
  flag : Bool → Value
  bytes : List ℕ → Value
  price : Price → Value
  nil : Value
  price_r : Price → Value
  numbers : List ℕ → Value
  texts : List String → Value
  path : List Asset → Value  -- the details of each asset

abbrev pub Details : Type 0
Details = List (String × Value)

-- history.EffectType.
pub data EffectType : Type 0 where
  account_created account_removed account_credited account_debited : EffectType
  account_thresholds_updated account_home_domain_updated account_flags_updated : EffectType
  account_inflation_destination_updated : EffectType
  signer_created signer_removed signer_updated : EffectType
  trustline_created trustline_removed trustline_updated : EffectType
  trustline_authorized trustline_deauthorized : EffectType
  trade : EffectType
  data_created data_removed data_updated : EffectType
  sequence_bumped : EffectType

pub record Effect : Type 0 where
  pub account : AccountId
  pub kind : EffectType
  pub details : Details

abbrev pub effect : AccountId → EffectType → Details → Effect
effect a k d = record { account = a; kind = k; details = d }

abbrev pub prefixed : String → String → String
prefixed p name = Str.◌++◌ p name

unfoldable pub asset_details : String → Asset → Details
asset_details prefix native = (prefixed prefix "asset_type", text "native") ∷ []
asset_details prefix (alphanum4 c i) =
    (prefixed prefix "asset_type", text "credit_alphanum4")
    ∷ (prefixed prefix "asset_code", text c)
    ∷ (prefixed prefix "asset_issuer", text i)
    ∷ []
asset_details prefix (alphanum12 c i) =
    (prefixed prefix "asset_type", text "credit_alphanum12")
    ∷ (prefixed prefix "asset_code", text c)
    ∷ (prefixed prefix "asset_issuer", text i)
    ∷ []

-- The details of one side of a trade: what it bought and what it sold.
unfoldable pub trade_details : AccountId → ℕ → Asset → ℤ → Asset → ℤ → Details
unfolding asset_details
trade_details counterparty offer_id bought bought_amount sold sold_amount =
    (("offer_id", number offer_id)
      ∷ ("seller", text counterparty)
      ∷ ("bought_amount", amount bought_amount)
      ∷ ("sold_amount", amount sold_amount)
      ∷ [])
    ++ (asset_details "bought_" bought ++ asset_details "sold_" sold)

unfoldable pub is_zero : ℤ → Bool
is_zero (pos n) = n == 0
is_zero (negsuc n) = false

-- Claims without amounts are offers that were collected as garbage.
unfoldable pub trade_effects : AccountId → List ClaimOfferAtom → List Effect
unfolding trade_details is_zero
trade_effects buyer [] = []
trade_effects buyer (c ∷ claims) =
    let rest = trade_effects buyer claims in
    if is_zero c.amount_sold && is_zero c.amount_bought
    then rest
    else effect buyer trade (
        trade_details c.seller_id c.offer_id c.asset_sold c.amount_sold c.asset_bought
          c.amount_bought)
      ∷ effect c.seller_id trade
          (trade_details buyer c.offer_id c.asset_bought c.amount_bought c.asset_sold c.amount_sold)
      ∷ rest

-- The signers of an account by address, the account itself among them unless its weight is 0.
unfoldable pub add_signers : List Signer → List (String × ℤ) → List (String × ℤ)
add_signers [] m = m
add_signers (s ∷ signers) m = add_signers signers (insert s.key (int32 (s.weight % 2 ^ 32)) m)

unfoldable pub signer_summary : AccountEntry → List (String × ℤ)
unfolding add_signers
signer_summary a =
    add_signers a.signers
      (if ltb 0 a.master_weight then (a.account_id, pos a.master_weight) ∷ [] else [])

unfoldable pub same_weight : ℤ → Option ℤ → Bool
same_weight w none = false
same_weight w (some v) = leb_ℤ w v && leb_ℤ v w

-- Every entry of the first map is one of the second.
unfoldable pub within : List (String × ℤ) → List (String × ℤ) → Bool
unfolding same_weight
within [] after = true
within ((k, w) ∷ before) after = same_weight w (lookup k after) && within before after

unfoldable pub removed_or_updated : AccountId → List (String × ℤ) → List (String × ℤ) → List Effect
removed_or_updated source [] after = []
removed_or_updated source ((k, w) ∷ before) after =
    elim (lookup k after) [
      | none ↦ effect source signer_removed (("public_key", text k) ∷ [])
      | some weight ↦
          effect source signer_updated (("public_key", text k) ∷ ("weight", integer weight) ∷ [])
    ]
    ∷ removed_or_updated source before after

unfoldable pub signers_created : AccountId → List (String × ℤ) → List (String × ℤ) → List Effect
signers_created source before [] = []
signers_created source before ((k, w) ∷ after) =
    elim (lookup k before) [
      | none ↦
          effect source signer_created (("public_key", text k) ∷ ("weight", integer w) ∷ []) ∷ []
      | some v ↦ []
    ]
    ++ signers_created source before after

unfoldable pub signer_changes : AccountId → List (String × ℤ) → List (String × ℤ) → List Effect
unfolding within removed_or_updated signers_created
signer_changes source before after =
    if within before after && within after before
    then []
    else removed_or_updated source before after ++ signers_created source before after

abbrev pub Loaded : Type 0
Loaded = Option LedgerEntry × Option LedgerEntry

-- The entries before and after the operation. An entry that is missing on either side gives none.
unfoldable pub signers_of_entries : AccountId → Loaded → Outcome (List Effect)
unfolding signer_changes signer_summary
signers_of_entries source (none, after) = done []
signers_of_entries source (some b, none) = done []
signers_of_entries source (some (LedgerEntry.account b), some (LedgerEntry.account a)) =
    done (signer_changes source (signer_summary b) (signer_summary a))
signers_of_entries source (some b, some a) = panicked

-- The error of a failing load is overwritten by the end of `ingestEffects`.
unfoldable pub signer_effects : (LedgerKey → Outcome Loaded) → AccountId → Outcome (List Effect)
unfolding signers_of_entries
signer_effects load source = elim (load (LedgerKey.account source)) [
  | panicked ↦ panicked
  | failed e ↦ done []
  | done entries ↦ signers_of_entries source entries
]
