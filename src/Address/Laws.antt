-- ===== src/Address/Laws.antt =====
-- An address is split into a name and a domain exactly if it is made from them.
use mathlib.Core.Path.{subst}
use dfc_api.Base.{
  ℕ, ◌≡◌, ◌≢◌, ◌∙◌, refl, sym, ap, ◌↔◌, inl, inr, Bool, true, false, List, [], ◌∷◌, ◌++◌, none,
  some, ◌==◌, ==_iff, Bool-cases, All, arith,
}
use dfc_api.Address.{separator, Err, new, cut, parts_of, judge, split_parts, split}

-- A byte that is no separator.
abbrev pub IsFree : ℕ → Type 0
IsFree c = (c == separator) ≡ false

unfoldable join : List ℕ → List (List ℕ) → List ℕ
join part [] = part
join part (next ∷ parts) = part ++ separator ∷ join next parts

abbrev Joined : List ℕ → List ℕ × List (List ℕ) → Type 0
Joined bytes parts =
    (join parts.0 parts.1 ≡ bytes) × (All IsFree parts.0 × All (All IsFree) parts.1)

cut-Joined :
    (is : Bool) (c : ℕ) (bytes : List ℕ) (parts : List ℕ × List (List ℕ))
    → (c == separator) ≡ is
    → Joined bytes parts
    → Joined (c ∷ bytes) (cut is c parts)
unfolding cut join
cut-Joined true c bytes (part, parts) e (j, (free, others)) = (
  ap (λ s. s ∷ join part parts) (sym ((==_iff c separator).0 e)) ∙ ap (λ l. c ∷ l) j,
  (tt, (free, others)),
)
cut-Joined false c bytes (part, []) e (j, (free, others)) = (ap (λ l. c ∷ l) j, ((e, free), others))
cut-Joined false c bytes (part, next ∷ parts) e (j, (free, others)) =
    (ap (λ l. c ∷ l) j, ((e, free), others))

parts_of-Joined : (bytes : List ℕ) → Joined bytes (parts_of bytes)
unfolding parts_of join
parts_of-Joined [] = (refl, (tt, tt))
parts_of-Joined (c ∷ bytes) =
    cut-Joined (c == separator) c bytes (parts_of bytes) refl (parts_of-Joined bytes)

parts_of_free : (bytes : List ℕ) → All IsFree bytes → parts_of bytes ≡ (bytes, [])
unfolding parts_of cut
parts_of_free [] h = refl
parts_of_free (c ∷ bytes) h = rw (h.0, parts_of_free bytes h.1) refl

parts_of-new :
    (name domain : List ℕ)
    → All IsFree name
    → All IsFree domain
    → parts_of (name ++ separator ∷ domain) ≡ (name, domain ∷ [])
unfolding parts_of cut
parts_of-new [] domain h k = rw (parts_of_free domain k) refl
parts_of-new (c ∷ name) domain h k = rw (h.0, parts_of-new name domain h.1 k) refl

no_error : {e : Err} → some e ≢ none
no_error h = ground arith

split_parts_accepts :
    (is_dns_name : List ℕ → Bool) (parts : List ℕ × List (List ℕ)) (name domain : List ℕ)
    → split_parts is_dns_name parts ≡ (name, (domain, none))
    → (parts ≡ (name, domain ∷ [])) × (judge is_dns_name name domain ≡ none)
unfolding split_parts
split_parts_accepts is_dns_name (p, []) name domain e = absurd (no_error (ap (λ r. r.1.1) e))
split_parts_accepts is_dns_name (p, q ∷ (o ∷ os)) name domain e =
    absurd (no_error (ap (λ r. r.1.1) e))
split_parts_accepts is_dns_name (p, q ∷ []) name domain e =
    let left : p ≡ name = ap (λ r. r.0) e in
    let right : q ≡ domain = ap (λ r. r.1.0) e in
    (
      ap (λ x. (x, q ∷ [])) left ∙ ap (λ x. (name, x ∷ [])) right,
      sym (ap (λ x. judge is_dns_name x q) left ∙ ap (judge is_dns_name name) right)
          ∙ ap (λ r. r.1.1) e,
    )

judge_iff :
    (is_dns_name : List ℕ → Bool) (name domain : List ℕ)
    → (judge is_dns_name name domain ≡ none) ↔ ((name ≢ []) × (is_dns_name domain ≡ true))
unfolding judge
judge_iff is_dns_name [] domain = (λ e. absurd (no_error e), λ fine. absurd (fine.0 refl))
judge_iff is_dns_name (c ∷ name) domain = elim (Bool-cases (is_dns_name domain)) [
  | inl dns ↦ rw (dns) (λ e. (λ h. ground arith, refl), λ fine. refl)
  | inr other ↦ rw (other) (λ e. absurd (no_error e), λ fine. ground arith)
]

-- An address is split into a name and a domain without an error exactly if it is the one made of
-- them, neither has a separator, the name is not empty and the domain is a DNS name.
pub split-new :
    (is_dns_name : List ℕ → Bool) (address name domain : List ℕ)
    → (split is_dns_name address ≡ (name, (domain, none))) ↔ (
        (address ≡ new name domain)
        × ((All IsFree name × All IsFree domain) × ((name ≢ []) × (is_dns_name domain ≡ true))))
unfolding split new join
split-new is_dns_name address name domain = (
  λ e.
      let (parts, judged) = split_parts_accepts is_dns_name (parts_of address) name domain e in
      let joined = subst (Joined address) parts (parts_of-Joined address) in
      (sym joined.0, ((joined.1.0, joined.1.1.0), (judge_iff is_dns_name name domain).0 judged)),
  λ made.
      let (whole, ((l, r), fine)) = made in
      ap (λ bytes. split_parts is_dns_name (parts_of bytes)) whole
      ∙ ap (split_parts is_dns_name) (parts_of-new name domain l r)
      ∙ ap (λ err. (name, (domain, err))) ((judge_iff is_dns_name name domain).1 fine),
)
