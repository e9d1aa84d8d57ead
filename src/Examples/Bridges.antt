-- ===== src/Examples/Bridges.antt =====
-- One account that sends, and one payment that arrives twice.
use dfc_api.Base.{◌+◌, refl, true, false, [], ◌∷◌, Option, none, some, String, arith}
use dfc_api.Base.Map.{lookup}
use dfc_api.Bridge.Submitter as Submitter
use dfc_api.Bridge.Submitter.{Account, Submitter, applied, rejected}
use dfc_api.Bridge.Submitter.Laws.{Counts, submit_all, submit_all_lem}
use dfc_api.Bridge.Listener as Listener
use dfc_api.Bridge.Listener.{Payment, Listener, Stored}
use dfc_api.Bridge.Listener.Laws.{Once, listen, listen-Once}

abbrev sender : Account
sender = record { address = "GA"; sequence_number = 7 }

abbrev no_seed : String → Option String
no_seed seed = none

abbrev idle : Submitter
idle = record { accounts = ("SA", sender) ∷ []; sent = [] }

abbrev answered : Submitter.Answers
answered = record {
  load = none;
  encoded = true;
  inserted = true;
  submission = applied;
  updated = true;
  reload = none;
}

abbrev answered_badly : Submitter.Answers
answered_badly = record {
  load = none;
  encoded = true;
  inserted = true;
  submission = rejected false;
  updated = true;
  reload = none;
}

submit_all_lem_example :
    Counts "SA" (7 + 2) (submit_all no_seed (answered ∷ answered_badly ∷ []) "SA" idle)
unfolding lookup
submit_all_lem_example =
    submit_all_lem no_seed "SA" (answered ∷ answered_badly ∷ []) sender idle refl (omega arith)
      ((λ bad e. cc), ((λ bad e. cc), tt)) tt

abbrev arrived : Payment
arrived = record {
  id = "1";
  kind = "payment";
  asset_type = "native";
  asset_code = "";
  asset_issuer = "";
  from = "GB";
  to = "GA";
  account = "";
  into = "";
  amount = "5";
}

abbrev open_config : Listener.Config
open_config = record { receiving_account = "GA"; assets = ("XLM", "") ∷ []; has_compliance = false }

abbrev stored : Stored
stored = record { read = true; inserted = true; updated = true }

abbrev passed : Listener.Answers
passed = record {
  merge_amount = none;
  memo = some ("text", "m");
  compliance = none;
  attached_route = none;
  callback = some 200;
}

abbrev nothing_yet : Listener
nothing_yet = record { received = []; posted = [] }

listen-Once_example :
    Once
      (listen open_config ((stored, passed, arrived) ∷ (stored, passed, arrived) ∷ []) nothing_yet)
unfolding lookup
listen-Once_example =
    listen-Once open_config ((stored, passed, arrived) ∷ (stored, passed, arrived) ∷ []) nothing_yet
      (λ id. omega arith)
