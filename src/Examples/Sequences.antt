-- ===== src/Examples/Sequences.antt =====
-- A queue and a manager of services/horizon/internal/txsub/sequence with a few submissions.
use dfc_api.Base.{◌+◌, ◌≤◌, ◌≡◌, refl, List, [], ◌∷◌, some, arith, count, ◌==◌}
use dfc_api.Base.Map.{lookup}
use dfc_api.Sequence.Item.{Item}
use dfc_api.Sequence.Heap
use dfc_api.Sequence.Heap.Laws.{IsOrdered, push-IsOrdered}
use dfc_api.Sequence.Queue
use dfc_api.Sequence.Queue.{Queue}
use dfc_api.Sequence.Queue.Update.{Serves, next_sequence-update, update-Serves}
use dfc_api.Sequence.Queue.Flow.{go_ahead, go_ahead-update-push, refusal, refusal-update-push}
use dfc_api.Sequence.Manager
use dfc_api.Sequence.Manager.{Manager}
use dfc_api.Sequence.Manager.Waiting.{IsValid, waiting}
use dfc_api.Sequence.Manager.Validity.{push-IsValid}
use dfc_api.Sequence.Manager.Answers.{update_conserves}
use dfc_api.Sequence.Manager.Accounts.{served_by, lookup-update}
use dfc_api.Sequence.Manager.Bounds.{
  here, next, updated, pushed, IsBounded, new_manager-IsBounded, Reach-IsBounded,
}

abbrev fifth : Item
fifth = record { sequence = 5; chan = 1 }

abbrev third : Item
third = record { sequence = 3; chan = 2 }

abbrev two : List Item
two = third ∷ fifth ∷ []

two-IsOrdered : IsOrdered two
unfolding Heap.push Heap.at
two-IsOrdered = push-IsOrdered third (fifth ∷ []) (λ c h k. absurd (omega arith))

abbrev pair : Queue
pair = record { last_active_at = 100; timeout = 50; next_sequence = 0; queue = two }

update-Serves_example :
    Serves pair 5 (Queue.update 120 4 pair) × ((Queue.update 120 4 pair).0.last_active_at ≡ 120)
unfolding Queue.raise
update-Serves_example = update-Serves 120 4 pair two-IsOrdered (λ e. absurd (omega arith))

next_sequence-update_example : (Queue.update 120 4 pair).0.next_sequence ≡ 5
next_sequence-update_example = next_sequence-update 120 4 pair two-IsOrdered (omega arith)

go_ahead-update-push_example : 1 ≤ count (go_ahead 9) (Queue.update 120 6 (Queue.push 7 9 pair)).1
unfolding Queue.raise
go_ahead-update-push_example = go_ahead-update-push 120 6 7 9 pair two-IsOrdered refl

refusal-update-push_example : 1 ≤ count (refusal 9) (Queue.update 120 6 (Queue.push 2 9 pair)).1
unfolding Queue.raise
refusal-update-push_example = refusal-update-push 120 6 2 9 pair two-IsOrdered (omega arith)

abbrev one_account : Manager
one_account = (Manager.push 100 "GA" 5 1 Manager.new_manager).0

one_account-IsValid : IsValid one_account
one_account-IsValid = push-IsValid 100 "GA" 5 1 Manager.new_manager new_manager-IsBounded.valid

update_conserves_example :
    count (λ s. s.chan == 1) (Manager.update 120 (("GA", 4) ∷ []) one_account).1
      + waiting (λ c. c == 1) (Manager.update 120 (("GA", 4) ∷ []) one_account).0
    ≡ waiting (λ c. c == 1) one_account
update_conserves_example =
    update_conserves (λ c. c == 1) 120 (("GA", 4) ∷ []) one_account one_account-IsValid

lookup-update_example :
    lookup "GA" (Manager.update 120 (("GA", 4) ∷ []) one_account).0.queues
    ≡ served_by 120 (some 4) (lookup "GA" one_account.queues)
unfolding lookup
lookup-update_example = lookup-update 120 (("GA", 4) ∷ []) one_account "GA" (refl, tt)

Reach-IsBounded_example : IsBounded (Manager.update 120 (("GA", 4) ∷ []) one_account).0
Reach-IsBounded_example = Reach-IsBounded new_manager-IsBounded (
    next (next here (pushed 100 "GA" 5 1 Manager.new_manager))
      (updated 120 (("GA", 4) ∷ []) one_account))
