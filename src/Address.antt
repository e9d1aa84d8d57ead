-- ===== src/Address.antt =====
-- address/main.go: federation addresses. A string is the list of its bytes, and whether a domain is a
-- DNS name is a parameter.
pub mod Laws
use dfc_api.Base.{
  ℕ, Bool, true, false, List, [], ◌∷◌, ◌++◌, Option, none, some, ◌==◌, if◌then◌else◌,
}

-- The byte of an asterisk.
abbrev pub separator : ℕ
separator = 42

pub data Err : Type 0 where
  invalid_address invalid_name invalid_domain : Err

unfoldable pub new : List ℕ → List ℕ → List ℕ
new name domain = name ++ separator ∷ domain

unfoldable pub cut : Bool → ℕ → List ℕ × List (List ℕ) → List ℕ × List (List ℕ)
cut true c (part, parts) = ([], part ∷ parts)
cut false c (part, parts) = (c ∷ part, parts)

-- The parts between the separators, of which there is at least one.
unfoldable pub parts_of : List ℕ → List ℕ × List (List ℕ)
unfolding cut
parts_of [] = ([], [])
parts_of (c ∷ bytes) = cut (c == separator) c (parts_of bytes)

-- The name and the domain are given with their errors.
unfoldable pub judge : (List ℕ → Bool) → List ℕ → List ℕ → Option Err
judge is_dns_name [] domain = some invalid_name
judge is_dns_name (c ∷ name) domain = if is_dns_name domain then none else some invalid_domain

unfoldable pub split_parts :
    (List ℕ → Bool) → List ℕ × List (List ℕ) → List ℕ × (List ℕ × Option Err)
split_parts is_dns_name (name, domain ∷ []) = (name, (domain, judge is_dns_name name domain))
split_parts is_dns_name (name, []) = ([], ([], some invalid_address))
split_parts is_dns_name (name, domain ∷ (other ∷ others)) = ([], ([], some invalid_address))

unfoldable pub split : (List ℕ → Bool) → List ℕ → List ℕ × (List ℕ × Option Err)
unfolding parts_of split_parts
split is_dns_name address = split_parts is_dns_name (parts_of address)
