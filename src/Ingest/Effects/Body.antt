-- ===== src/Ingest/Effects/Body.antt =====
-- services/horizon/internal/ingest/session.go: `ingestEffects`, by the type of the operation.
use Prim.Native.Nat.{bit_and}
use dfc_api.Base.{
  ℕ, Bool, true, false, List, [], ◌∷◌, ◌++◌, Option, none, some, String, if◌then◌else◌, ◌==◌, map,
}
use dfc_api.Base.Int.{ℤ}
use dfc_api.Base.Map.{insert}
use dfc_api.Xdr.{AccountId, Asset, LedgerEntry, LedgerKey}
use dfc_api.Xdr.Operation.{OperationBody, OperationResult, SetOptionsOp, to_asset, send_amount}
use dfc_api.Ingest.Outcome.{Outcome, meta_not_found, done, failed, panicked, ◌>>=◌}
use dfc_api.Ingest.Effects.{
  Value, text, amount, integer, number, flag, bytes, Details, EffectType, Effect, effect, Loaded,
  asset_details, trade_effects, signer_effects, account_created, account_removed, account_credited,
  account_debited, account_thresholds_updated, account_home_domain_updated, account_flags_updated,
  account_inflation_destination_updated, signer_created, trustline_created, trustline_removed,
  trustline_updated, trustline_authorized, trustline_deauthorized, data_created, data_removed,
  data_updated, sequence_bumped,
}

-- The three flags of an account, each by its bit.
unfoldable pub flag_bits : List (ℕ × String)
flag_bits = (1, "auth_required_flag") ∷ (2, "auth_revocable_flag") ∷ (4, "auth_immutable_flag") ∷ []

unfoldable pub mark_flags :
    Bool → ℕ → List (ℕ × String) → List (String × Value) → List (String × Value)
mark_flags value flags [] details = details
mark_flags value flags ((bit, name) ∷ bits) details =
    mark_flags value flags bits
      (if bit_and flags bit == 0 then details else insert name (flag value) details)

unfoldable pub effect_flag_details : Bool → Option ℕ → List (String × Value) → List (String × Value)
unfolding mark_flags flag_bits
effect_flag_details value none details = details
effect_flag_details value (some flags) details = mark_flags value flags flag_bits details

unfoldable pub optional {ℓ} : {A : Type ℓ} → (A → Details) → Option A → Details
optional f none = []
optional f (some a) = f a

-- An effect only if it has details.
unfoldable pub unless_empty : AccountId → EffectType → Details → List Effect
unless_empty source kind [] = []
unless_empty source kind (d ∷ ds) = effect source kind (d ∷ ds) ∷ []

unfoldable pub home_domain_effects : AccountId → Option String → List Effect
home_domain_effects source none = []
home_domain_effects source (some domain) =
    effect source account_home_domain_updated (("home_domain", text domain) ∷ []) ∷ []

unfoldable pub inflation_dest_effects : AccountId → Option AccountId → List Effect
inflation_dest_effects source none = []
inflation_dest_effects source (some dest) =
    effect source account_inflation_destination_updated (("inflation_destination", text dest) ∷ [])
    ∷ []

unfoldable pub option_effects : AccountId → SetOptionsOp → List Effect
unfolding home_domain_effects inflation_dest_effects optional unless_empty effect_flag_details
option_effects source op =
    home_domain_effects source op.home_domain
    ++ (unless_empty source account_thresholds_updated (
          optional (λ n. ("low_threshold", number n) ∷ []) op.low_threshold
          ++ (optional (λ n. ("med_threshold", number n) ∷ []) op.med_threshold
              ++ optional (λ n. ("high_threshold", number n) ∷ []) op.high_threshold))
        ++ (unless_empty source account_flags_updated
              (effect_flag_details false op.clear_flags (effect_flag_details true op.set_flags []))
            ++ inflation_dest_effects source op.inflation_dest))

-- Which of the three kinds an entry's change is; the panic where there is no entry on either side.
unfoldable pub change_kind {ℓ} :
    {K : Type ℓ} → K → K → K → Option LedgerEntry × Option LedgerEntry → Outcome K
change_kind created removed updated (none, some a) = done created
change_kind created removed updated (some b, none) = done removed
change_kind created removed updated (some b, some a) = done updated
change_kind created removed updated (none, none) = panicked

unfoldable pub trust_effects :
    (LedgerKey → Outcome Loaded) → AccountId → Asset → ℤ → Outcome (List Effect)
unfolding change_kind
trust_effects load source line limit = elim (load (LedgerKey.trust_line source line)) [
  | panicked ↦ panicked
  | failed meta_not_found ↦ done []
  | failed e ↦ failed e
  | done entries ↦ do
    kind ← change_kind trustline_created trustline_removed trustline_updated entries
    done (effect source kind (("limit", amount limit) ∷ asset_details "" line) ∷ [])
]

-- The value of the data entry after the operation; the panic where it is no data entry.
unfoldable pub data_value : Option LedgerEntry → Outcome Details
data_value none = done []
data_value (some (LedgerEntry.data_entry d)) = done (("value", bytes d.data_value) ∷ [])
data_value (some e) = panicked

unfoldable pub data_effects :
    (LedgerKey → Outcome Loaded) → AccountId → String → Outcome (List Effect)
unfolding change_kind data_value
data_effects load source name = do
  entries ← load (LedgerKey.data_entry source name)
  value ← data_value entries.1
  kind ← change_kind data_created data_removed data_updated entries
  done (effect source kind (("name", text name) ∷ value) ∷ [])

unfoldable pub credited : AccountId × ℤ → Effect
credited (destination, n) =
    effect destination account_credited (("amount", amount n) ∷ ("asset_type", text "native") ∷ [])

-- `load` gives an entry before and after the operation, and `touched` whether the operation has
-- changes at all.
unfoldable pub ingest_effects :
    (LedgerKey → Outcome Loaded)
    → Outcome Bool
    → AccountId
    → OperationBody
    → OperationResult
    → Outcome (List Effect)
unfolding option_effects trust_effects data_effects credited
ingest_effects load touched source (OperationBody.create_account destination balance) result =
    done (
      effect destination account_created (("starting_balance", amount balance) ∷ [])
      ∷ effect source account_debited
          (("asset_type", text "native") ∷ ("amount", amount balance) ∷ [])
      ∷ effect destination signer_created
          (("public_key", text destination) ∷ ("weight", number 1) ∷ [])
      ∷ [])
ingest_effects load touched source (OperationBody.payment destination asset n) result =
    let details : Details = ("amount", amount n) ∷ asset_details "" asset in
    done (effect destination account_credited details ∷ effect source account_debited details ∷ [])
ingest_effects load touched source (OperationBody.path_payment op)
      (OperationResult.path_payment offers last) =
    done (
      effect op.destination account_credited
        (("amount", amount op.dest_amount) ∷ asset_details "" op.dest_asset)
      ∷ effect source account_debited
          (("amount", amount (send_amount offers last)) ∷ asset_details "" op.send_asset)
      ∷ trade_effects source offers)
ingest_effects load touched source (OperationBody.manage_offer op)
      (OperationResult.manage_offer claims offer) =
    done (trade_effects source claims)
ingest_effects load touched source (OperationBody.create_passive_offer op)
      (OperationResult.manage_offer claims offer) =
    done (trade_effects source claims)
ingest_effects load touched source (OperationBody.create_passive_offer op)
      (OperationResult.create_passive_offer claims offer) =
    done (trade_effects source claims)
ingest_effects load touched source (OperationBody.set_options op) result = do
  signers ← signer_effects load source
  done (option_effects source op ++ signers)
ingest_effects load touched source (OperationBody.change_trust line limit) result =
    trust_effects load source line limit
ingest_effects load touched source (OperationBody.allow_trust trustor code authorize) result =
    done (
      effect source (if authorize then trustline_authorized else trustline_deauthorized)
        (("trustor", text trustor) ∷ asset_details "" (to_asset code source))
      ∷ [])
ingest_effects load touched source (OperationBody.account_merge destination)
      (OperationResult.account_merge balance) =
    let details : Details = ("amount", amount balance) ∷ ("asset_type", text "native") ∷ [] in
    done (
      effect source account_debited details
      ∷ effect destination account_credited details
      ∷ effect source account_removed []
      ∷ [])
ingest_effects load touched source OperationBody.inflation (OperationResult.inflation payouts) =
    done (map credited payouts)
ingest_effects load touched source (OperationBody.manage_data name value) result =
    data_effects load source name
ingest_effects load touched source (OperationBody.bump_sequence to) result = do
  changed ← touched
  done (if changed then effect source sequence_bumped (("new_seq", integer to) ∷ []) ∷ [] else [])
ingest_effects load touched source body result = panicked
