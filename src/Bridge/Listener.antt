-- ===== src/Bridge/Listener.antt =====
-- services/bridge/internal/listener/payment_listener.go: the payments that the bridge server receives
-- and passes on to a callback.
pub mod Laws
use package.text.Mathlib.Text.{◌==◌}
use dfc_api.Base as Base
use dfc_api.Base.{
  ℕ, Bool, true, false, not, ◌&&◌, ◌||◌, List, [], ◌∷◌, Option, none, some, String, if◌then◌else◌,
}
use dfc_api.Base.Map.{lookup, insert}

pub record Payment : Type 0 where
  pub id : String
  pub kind : String
  pub asset_type : String
  pub asset_code : String
  pub asset_issuer : String
  pub from : String
  pub to : String
  pub account : String
  pub into : String
  pub amount : String

-- The assets are pairs of a code and an issuer.
pub record Config : Type 0 where
  pub receiving_account : String
  pub assets : List (String × String)
  pub has_compliance : Bool

-- What the receive callback is told.
pub record Form : Type 0 where
  pub id : String
  pub from : String
  pub route : String
  pub amount : String

-- The answers to the requests for one payment: the amount of a merge, the type and the value of the
-- memo, the status of the compliance server and the route in its answer, and the status of the
-- callback. `none` is a failing request or an answer that does not decode.
pub record Answers : Type 0 where
  pub merge_amount : Option String
  pub memo : Option (String × String)
  pub compliance : Option ℕ
  pub attached_route : Option String
  pub callback : Option ℕ

pub data Err : Type 0 where
  merge_amount_failed memo_failed compliance_failed compliance_refused : Err
  callback_failed callback_refused : Err

pub data Status : Type 0 where
  processing reprocessing success : Status
  not_a_payment sent_not_received asset_not_allowed : Status
  failed : Err → Status

unfoldable pub is_asset_allowed : List (String × String) → String → String → String → Bool
is_asset_allowed [] asset_type code issuer = false
is_asset_allowed ((c, i) ∷ assets) asset_type code issuer =
    let rest = is_asset_allowed assets asset_type code issuer in
    (c == code && i == issuer) || ((c == "XLM" && i == "" && asset_type == "native") || rest)

-- The status of a payment that is not processed.
unfoldable pub should_process_payment : Config → Payment → Option Status
unfolding is_asset_allowed
should_process_payment config p =
    let asset_type = if p.kind == "account_merge" then "native" else p.asset_type in
    if not (p.kind == "payment")
      && (not (p.kind == "path_payment") && not (p.kind == "account_merge"))
    then some not_a_payment
    else if not (p.to == config.receiving_account) && not (p.into == config.receiving_account)
    then some sent_not_received
    else if is_asset_allowed config.assets asset_type p.asset_code p.asset_issuer
    then none
    else some asset_not_allowed

-- A merge as a payment of the amount that was merged.
unfoldable pub as_payment : Answers → Payment → Option Payment
as_payment o p =
    if p.kind == "account_merge"
    then elim o.merge_amount [
      | none ↦ none
      | some n ↦
          some (record p { asset_type = "native"; from = p.account; to = p.into; amount = n })
    ]
    else some p

unfoldable pub is_ok : ℕ → Bool
is_ok status = Base.◌==◌ status 200

-- The route: that of the compliance server for a hash memo, none for one without such a server, and
-- the memo itself otherwise.
pub data Routed : Type 0 where
  routed : String → Routed
  unrouted : Err → Routed

unfoldable pub compliance_route : Option ℕ → Option String → Routed
unfolding is_ok
compliance_route none route = unrouted compliance_failed
compliance_route (some status) none =
    if is_ok status then unrouted compliance_failed else unrouted compliance_refused
compliance_route (some status) (some route) =
    if is_ok status then routed route else unrouted compliance_refused

unfoldable pub route_of : Config → Answers → String × String → Routed
unfolding compliance_route
route_of config o (type, value) =
    if config.has_compliance && type == "hash"
    then compliance_route o.compliance o.attached_route
    else routed (if type == "hash" then "" else value)

unfoldable pub callback_error : Option ℕ → Option Err
unfolding is_ok
callback_error none = some callback_failed
callback_error (some status) = if is_ok status then none else some callback_refused

unfoldable pub form_of : Payment → String → Form
form_of p route = record { id = p.id; from = p.from; route = route; amount = p.amount }

-- The form that is posted, if any, and the error.
unfoldable pub post : Answers → Payment → Routed → Option Form × Option Err
unfolding callback_error form_of
post o p (routed route) = (some (form_of p route), callback_error o.callback)
post o p (unrouted e) = (none, some e)

unfoldable pub process_paid :
    Config → Answers → Payment → Option (String × String) → Option Form × Option Err
unfolding route_of post
process_paid config o p none = (none, some memo_failed)
process_paid config o p (some memo) = post o p (route_of config o memo)

unfoldable pub process_as : Config → Answers → Option Payment → Option Form × Option Err
unfolding process_paid
process_as config o none = (none, some merge_amount_failed)
process_as config o (some p) = process_paid config o p o.memo

unfoldable pub process : Config → Answers → Payment → Option Form × Option Err
unfolding as_payment process_as
process config o p = process_as config o (as_payment o p)

-- The table of received payments, and the forms that were posted, the latest first.
pub record Listener : Type 0 where
  pub received : List (String × Status)
  pub posted : List Form

-- Whether the three calls of the database succeed.
pub record Stored : Type 0 where
  pub read : Bool
  pub inserted : Bool
  pub updated : Bool

unfoldable pub cons_form : Option Form → List Form → List Form
cons_form none forms = forms
cons_form (some f) forms = f ∷ forms

unfoldable pub status_of : Option Err → Status
status_of none = success
status_of (some e) = failed e

unfoldable pub update_status : Bool → String → Status → Listener → Listener
update_status false id status s = s
update_status true id status s = record s { received = insert id status s.received }

unfoldable pub process_received : Config → Answers → Bool → Payment → Listener → Listener
unfolding process cons_form status_of update_status
process_received config o updated p s =
    let (form, err) = process config o p in
    update_status updated p.id (status_of err) (record s { posted = cons_form form s.posted })

unfoldable pub decide : Config → Answers → Bool → Payment → Option Status → Listener → Listener
unfolding process_received update_status
decide config o updated p (some status) s = update_status updated p.id status s
decide config o updated p none s = process_received config o updated p s

unfoldable pub on_payment : Config → Stored → Answers → Payment → Listener → Listener
unfolding should_process_payment decide
on_payment config d o p s = if not d.read then s else elim (lookup p.id s.received) [
  | some status ↦ s
  | none ↦
      if not d.inserted
      then s
      else decide config o d.updated p (should_process_payment config p)
          (record s { received = insert p.id processing s.received })
]
