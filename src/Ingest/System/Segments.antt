-- ===== src/Ingest/System/Segments.antt =====
-- The segments of the outdated ledgers.
use mathlib.Core.List.{append_assoc}
use dfc_api.Base.{
  ℕ, zero, suc, ◌+◌, ◌-◌, ◌^◌, ◌≤◌, ◌<◌, ◌≡◌, refl, ap, ◌∙◌, false, Bool-cases, inl, inr, List, [],
  ◌∷◌, ◌++◌, map, All, ◌==◌, arith,
}
use dfc_api.Base.Int.{ℤ, pos, ◌+ℤ◌}
use dfc_api.Toid.{increment}
use dfc_api.Ingest.Cursor.{same}
use dfc_api.Ingest.Cursor.Iteration.{up}
use dfc_api.Ingest.System.{segments}

-- The ledgers that a session upwards visits, and those of some sessions one after the other.
unfoldable pub ledgers_between : ℤ × ℤ → List ℤ
unfolding up
ledgers_between (pos s, pos e) = up (suc (e - s)) s
ledgers_between segment = []

unfoldable pub ledgers_of : List (ℤ × ℤ) → List ℤ
unfolding ledgers_between
ledgers_of [] = []
ledgers_of (s ∷ rest) = ledgers_between s ++ ledgers_of rest

abbrev pub IsSequence : ℕ → Type 0
IsSequence n = (0 < n) × (n < 2 ^ 31 - 1)

up-snoc : (n s : ℕ) → up (suc n) s ≡ up n s ++ pos (s + n) ∷ []
unfolding up
up-snoc zero s = ap (λ x. pos x ∷ []) (omega arith)
up-snoc (suc n) s =
    ap (λ l. pos s ∷ l) (up-snoc n (suc s) ∙ ap (λ i. up n (suc s) ++ pos i ∷ []) (omega arith))

same-zero : (s : ℕ) → 0 < s → same (pos s) (pos 0) ≡ false
unfolding same
same-zero s h = ground arith

same-next : (x e : ℕ) → e < 2 ^ 31 - 1 → same (pos x) (increment (pos e)) ≡ (x == suc e)
unfolding same increment ◌+ℤ◌
same-next x e h = ground arith

up-next :
    (s e x : ℕ) (rest : List ℤ)
    → s ≤ e
    → x ≡ suc e
    → up (suc (x - s)) s ++ rest ≡ up (suc (e - s)) s ++ pos x ∷ rest
up-next s e x rest le next =
    let longer : x - s ≡ suc (e - s) = omega arith in
    let last : s + suc (e - s) ≡ x = omega arith in
    rw (longer, up-snoc (suc (e - s)) s, last) (append_assoc (up (suc (e - s)) s) (pos x ∷ []) rest)

up-single : (x : ℕ) (rest : List ℤ) → up (suc (x - x)) x ++ rest ≡ pos x ∷ rest
unfolding up
up-single x rest = let none_left : x - x ≡ 0 = omega arith in rw none_left refl

segments-go :
    (s e : ℕ) (xs : List ℕ)
    → IsSequence s
    → IsSequence e
    → s ≤ e
    → All IsSequence xs
    → ledgers_of (segments (pos s) (pos e) (map pos xs)) ≡ up (suc (e - s)) s ++ map pos xs
unfolding segments ledgers_of ledgers_between
segments-go s e [] hs he le all = refl
segments-go s e (x ∷ xs) hs he le all = elim (Bool-cases (x == suc e)) [
  | inl next ↦
      rw (same-zero s hs.0, same-next x e he.1, next)
        (segments-go s x xs hs all.0 (ground arith) all.1
          ∙ up-next s e x (map pos xs) le (ground arith))
  | inr gap ↦
      rw (same-zero s hs.0, same-next x e he.1, gap)
        (ap (λ l. up (suc (e - s)) s ++ l)
          (segments-go x x xs all.0 all.0 (omega arith) all.1 ∙ up-single x (map pos xs)))
]

-- The segments of outdated ledgers with positive sequences below the largest int32 are, one after
-- the other, those ledgers, each as often and in the order in which the query gives them.
pub ledgers_of-segments :
    (x : ℕ) (xs : List ℕ)
    → All IsSequence (x ∷ xs)
    → ledgers_of (segments (pos 0) (pos 0) (map pos (x ∷ xs))) ≡ map pos (x ∷ xs)
unfolding segments
ledgers_of-segments x xs all =
    segments-go x x xs all.0 all.0 (omega arith) all.1 ∙ up-single x (map pos xs)
