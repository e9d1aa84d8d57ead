-- ===== src/Ingest/Details.antt =====
-- services/horizon/internal/ingest/session.go: the details of an operation (`operationDetails`).
use Prim.Native.Nat.{bit_and}
use dfc_api.Base.{
  ℕ, Bool, true, false, List, [], ◌∷◌, ◌++◌, Option, none, some, String, if◌then◌else◌, ltb,
}
use dfc_api.Base.Int.{ℤ, pos}
use dfc_api.Xdr.{AccountId, Asset, native, alphanum4, alphanum12, Price, Signer}
use dfc_api.Xdr.Operation.{
  OperationBody, OperationResult, PathPaymentOp, SetOptionsOp, to_asset, send_amount,
}
use dfc_api.Ingest.Outcome.{Outcome, done, panicked, ◌>>=◌}
use dfc_api.Ingest.Effects.{
  Value, text, amount, integer, number, flag, bytes, price, nil, price_r, numbers, texts, path,
  Details, prefixed, asset_details,
}

-- The three flags, as an operation's details name them.
unfoldable pub flag_names : List (ℕ × String)
flag_names = (1, "auth_required") ∷ (2, "auth_revocable") ∷ (4, "auth_immutable") ∷ []

unfoldable pub flags_set : ℕ → List (ℕ × String) → List ℕ × List String
flags_set f [] = ([], [])
flags_set f ((bit, name) ∷ names) =
    let (n, s) = flags_set f names in if ltb 0 (bit_and f bit) then (bit ∷ n, name ∷ s) else (n, s)

unfoldable pub operation_flag_details : ℕ → String → Details
unfolding flags_set flag_names
operation_flag_details f prefix =
    let (n, s) = flags_set f flag_names in
    (prefixed prefix "_flags", numbers n) ∷ (prefixed prefix "_flags_s", texts s) ∷ []

-- No details for no flags.
unfoldable pub changed_flags : Option ℕ → String → Details
unfolding operation_flag_details
changed_flags none prefix = []
changed_flags (some f) prefix = if ltb 0 f then operation_flag_details f prefix else []

unfoldable pub given {ℓ} : {A : Type ℓ} → String → (A → Value) → Option A → Details
given name f none = []
given name f (some a) = (name, f a) ∷ []

unfoldable pub signer_details : Option Signer → Details
signer_details none = []
signer_details (some s) = ("signer_key", text s.key) ∷ ("signer_weight", number s.weight) ∷ []

unfoldable pub set_options_details : SetOptionsOp → Details
unfolding changed_flags given signer_details
set_options_details op =
    given "inflation_dest" text op.inflation_dest
    ++ (changed_flags op.set_flags "set"
        ++ (changed_flags op.clear_flags "clear"
            ++ (given "master_key_weight" number op.master_weight
                ++ (given "low_threshold" number op.low_threshold
                    ++ (given "med_threshold" number op.med_threshold
                        ++ (given "high_threshold" number op.high_threshold
                            ++ (given "home_domain" text op.home_domain
                                ++ signer_details op.signer)))))))

-- The amount that a path payment sent: 0 for a failed transaction.
unfoldable pub source_amount : Bool → OperationResult → Outcome ℤ
source_amount false result = done (pos 0)
source_amount true (OperationResult.path_payment offers last) = done (send_amount offers last)
source_amount true result = panicked

unfoldable pub path_details : AccountId → PathPaymentOp → ℤ → Details
unfolding asset_details
path_details source op sent =
    (("from", text source)
      ∷ ("to", text op.destination)
      ∷ ("amount", amount op.dest_amount)
      ∷ ("source_amount", amount sent)
      ∷ ("source_max", amount op.send_max)
      ∷ [])
    ++ (asset_details "" op.dest_asset
        ++ (asset_details "source_" op.send_asset ++ ("path", path op.path) ∷ []))

unfoldable pub price_details : ℤ → Price → Asset → Asset → Details
unfolding asset_details
price_details n p buying selling =
    (("amount", amount n) ∷ ("price", price p) ∷ ("price_r", price_r p) ∷ [])
    ++ (asset_details "buying_" buying ++ asset_details "selling_" selling)

-- The issuer of a line; the native asset has none.
unfoldable pub trustee : Asset → Value
trustee native = nil
trustee (alphanum4 c i) = text i
trustee (alphanum12 c i) = text i

unfoldable pub operation_details :
    Bool → AccountId → OperationBody → OperationResult → Outcome Details
unfolding set_options_details source_amount path_details price_details trustee
operation_details successful source (OperationBody.create_account destination balance) result =
    done (
      ("funder", text source)
      ∷ ("account", text destination)
      ∷ ("starting_balance", amount balance)
      ∷ [])
operation_details successful source (OperationBody.payment destination asset n) result = done (
    (("from", text source) ∷ ("to", text destination) ∷ ("amount", amount n) ∷ [])
    ++ asset_details "" asset)
operation_details successful source (OperationBody.path_payment op) result = do
  sent ← source_amount successful result
  done (path_details source op sent)
operation_details successful source (OperationBody.manage_offer op) result =
    done (("offer_id", number op.offer_id) ∷ price_details op.amount op.price op.buying op.selling)
operation_details successful source (OperationBody.create_passive_offer op) result =
    done (price_details op.amount op.price op.buying op.selling)
operation_details successful source (OperationBody.set_options op) result =
    done (set_options_details op)
operation_details successful source (OperationBody.change_trust line limit) result = done (
    asset_details "" line
    ++ ("trustor", text source) ∷ ("trustee", trustee line) ∷ ("limit", amount limit) ∷ [])
operation_details successful source (OperationBody.allow_trust trustor code authorize) result =
    done (
      asset_details "" (to_asset code source)
      ++ ("trustee", text source) ∷ ("trustor", text trustor) ∷ ("authorize", flag authorize) ∷ [])
operation_details successful source (OperationBody.account_merge destination) result =
    done (("account", text source) ∷ ("into", text destination) ∷ [])
operation_details successful source OperationBody.inflation result = done []
operation_details successful source (OperationBody.manage_data name none) result =
    done (("name", text name) ∷ ("value", nil) ∷ [])
operation_details successful source (OperationBody.manage_data name (some value)) result =
    done (("name", text name) ∷ ("value", bytes value) ∷ [])
operation_details successful source (OperationBody.bump_sequence to) result =
    done (("bump_to", integer to) ∷ [])
