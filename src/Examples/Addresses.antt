-- ===== src/Examples/Addresses.antt =====
-- The address bob*x.
use dfc_api.Base.{ℕ, ◌≡◌, ◌≢◌, ◌↔◌, Bool, true, List, [], ◌∷◌, none, All}
use dfc_api.Address.{new, split}
use dfc_api.Address.Laws.{IsFree, split-new}

abbrev bob : List ℕ
bob = 98 ∷ 111 ∷ 98 ∷ []

abbrev x : List ℕ
x = 120 ∷ []

abbrev bob_at_x : List ℕ
bob_at_x = 98 ∷ 111 ∷ 98 ∷ 42 ∷ 120 ∷ []

abbrev any_domain : List ℕ → Bool
any_domain domain = true

split-new_example : (split any_domain bob_at_x ≡ (bob, (x, none))) ↔ (
    (bob_at_x ≡ new bob x)
    × ((All IsFree bob × All IsFree x) × ((bob ≢ []) × (any_domain x ≡ true))))
split-new_example = split-new any_domain bob_at_x bob x
