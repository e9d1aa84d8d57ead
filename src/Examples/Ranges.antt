-- ===== src/Examples/Ranges.antt =====
-- Small ranges of checkpoints of tools/dfc-archivist/internal/range.go.
use dfc_api.Base.{
  ℕ, ◌+◌, ◌*◌, ◌≡◌, refl, [], ◌∷◌, none, some, arith, ltb, length, get_elem?, if◌then◌else◌,
}
use dfc_api.Archivist.Range.{Range, checkpoints, size, collapse}
use dfc_api.Archivist.Range.Checkpoints.{IsRange, checkpoints_lem}
use dfc_api.Archivist.Range.Groups.{all_members, all_members-collapse}

abbrev early : Range
early = record { low = 63; high = 319 }

abbrev late : Range
late = record { low = 127; high = 447 }

early-IsRange : IsRange early
early-IsRange = record { first = refl; last = refl; ordered = omega arith; fits = omega arith }

late-IsRange : IsRange late
late-IsRange = record { first = refl; last = refl; ordered = omega arith; fits = omega arith }

checkpoints_lem_example :
    (length (checkpoints early) ≡ size early)
    × (63 + 64 * size early ≡ 319)
    × ((j : ℕ)
        → get_elem? (checkpoints early) j
          ≡ (if ltb j (size early) then some (63 + 64 * j) else none))
checkpoints_lem_example = checkpoints_lem early early-IsRange

all_members-collapse_example : all_members (collapse (63 ∷ 127 ∷ 255 ∷ [])) ≡ 63 ∷ 127 ∷ 255 ∷ []
all_members-collapse_example =
    all_members-collapse (63 ∷ 127 ∷ 255 ∷ []) (omega arith, (omega arith, (omega arith, tt)))
      (omega arith, (omega arith, (omega arith, tt)))
