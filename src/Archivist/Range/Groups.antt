-- ===== src/Archivist/Range/Groups.antt =====
-- The ranges that `fmtRangeList` prints, against the list they stand for.
use dfc_api.Base.{
  ap, ◌∙◌, ℕ, zero, suc, ◌+◌, ◌-◌, ◌*◌, ◌/◌, ◌%◌, ◌^◌, ◌≤◌, ◌<◌, ◌≡◌, refl, List, [], ◌∷◌, ◌++◌,
  arith, Bool-cases, ◌==◌, inl, inr, All, sym,
}
use dfc_api.Archivist.Range.{Range, collapse_from, collapse}

-- `n` numbers from `i` on, 64 apart.
unfoldable pub steps : ℕ → ℕ → List ℕ
steps i zero = []
steps i (suc n) = i ∷ steps (i + 64) n

-- The numbers that a printed range stands for, both ends included.
unfoldable pub members : Range → List ℕ
members r = steps r.low ((r.high - r.low) / 64 + 1)

unfoldable pub all_members : List Range → List ℕ
all_members [] = []
all_members (r ∷ rs) = members r ++ all_members rs

-- Not descending, from a lower bound on.
abbrev pub Ascends : ℕ → List ℕ → Type 0
Ascends a [] = Unit
Ascends a (t ∷ ts) = (a ≤ t) × Ascends t ts

steps_last : (i n : ℕ) (ts : List ℕ) → steps i (suc n) ++ ts ≡ steps i n ++ (i + 64 * n) ∷ ts
unfolding steps
steps_last i zero ts = ap (λ (j : ℕ). j ∷ ts) (omega arith)
steps_last i (suc n) ts =
    let same : i + 64 + 64 * n ≡ i + 64 * suc n = omega arith in
    ap (λ (l : List ℕ). i ∷ l)
      (steps_last (i + 64) n ts ∙ ap (λ (j : ℕ). steps (i + 64) n ++ j ∷ ts) same)

members-steps :
    (low k high : ℕ)
    → high ≡ low + 64 * k
    → members (record { low = low; high = high }) ≡ steps low (suc k)
unfolding members
members-steps low k high e =
    let many : (high - low) / 64 + 1 ≡ suc k = omega arith in ap (steps low) many

collapse_from_lem :
    (low k high : ℕ) (ts : List ℕ)
    → high ≡ low + 64 * k
    → high < 2 ^ 32
    → Ascends high ts
    → All (λ t. t < 2 ^ 32) ts
    → all_members (collapse_from (record { low = low; high = high }) ts) ≡ steps low (suc k) ++ ts
unfolding collapse_from all_members
collapse_from_lem low k high [] e h a w = ap (λ (l : List ℕ). l ++ []) (members-steps low k high e)
collapse_from_lem low k high (t ∷ ts) e h a w = elim (Bool-cases ((high + 64) % 2 ^ 32 == t)) [
  | inl near ↦
      let next : t ≡ low + 64 * suc k = ground (arith, a.0) in
      rw near (
        collapse_from_lem low (suc k) t ts next w.0 a.1 w.1
        ∙ steps_last low (suc k) ts
        ∙ ap (λ (j : ℕ). steps low (suc k) ++ j ∷ ts) (sym next))
  | inr far ↦
      rw (far, members-steps low k high e)
        (ap (λ (l : List ℕ). steps low (suc k) ++ l)
          (collapse_from_lem t 0 t ts (omega arith) w.0 a.1 w.1 ∙ unfold steps in refl))
]

-- The ranges that are made of a sorted list of uint32 numbers stand for exactly the numbers of the
-- list, in their order and as often as they occur.
pub all_members-collapse :
    (ts : List ℕ) → Ascends 0 ts → All (λ t. t < 2 ^ 32) ts → all_members (collapse ts) ≡ ts
unfolding collapse
all_members-collapse [] a w = unfold all_members in refl
all_members-collapse (t ∷ ts) a w =
    collapse_from_lem t 0 t ts (omega arith) w.0 a.1 w.1 ∙ unfold steps in refl
