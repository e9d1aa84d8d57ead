-- ===== src/Ingest/Cursor/Iteration.antt =====
-- The cursor visits the ledgers of its range, each once and in order, in either direction.
use dfc_api.Base.{
  ◌∙◌, ltb, Bool-cases, inl, inr, ℕ, zero, suc, ◌+◌, ◌-◌, ◌^◌, ◌≤◌, ◌<◌, ◌≡◌, refl, Bool, true,
  false, List, [], ◌∷◌, arith, if◌then◌else◌,
}
use dfc_api.Base.Int.{ℤ, pos, ◌-ℤ◌, ◌+ℤ◌}
use dfc_api.Toid.{increment}
use dfc_api.Ingest.Cursor.{Cursor, new_cursor, is_reverse, in_ledger, same, next_lg, increment_lg}

-- The sequences that the calls of `incrementLg` stop at, of at most so many calls; and whether the
-- last of them ended the iteration.
unfoldable pub visited : ℕ → Cursor → List ℤ × Bool
unfolding increment_lg
visited zero c = ([], false)
visited (suc fuel) c =
    let (more, next) = increment_lg c in
    let (rest, ended) = visited fuel next in if more then (next.lg ∷ rest, ended) else ([], true)

-- `n` sequences up from `first`, and down from it.
unfoldable pub up : ℕ → ℕ → List ℤ
up zero first = []
up (suc n) first = pos first ∷ up n (suc first)

unfoldable pub down : ℕ → ℕ → List ℤ
down zero first = []
down (suc n) first = pos first ∷ down n (first - 1)

abbrev at : ℕ → ℕ → ℕ → Cursor
at first last lg = record { first_ledger = pos first; last_ledger = pos last; lg = pos lg }

more-up :
    (first last lg : ℕ)
    → 0 < lg
    → lg < last
    → first ≤ last
    → last < 2 ^ 31 - 1
    → increment_lg (at first last lg) ≡ (true, at first last (suc lg))
unfolding increment_lg next_lg is_reverse in_ledger same increment ◌+ℤ◌
more-up first last lg h k le b = ground arith

end-up :
    (first last : ℕ)
    → 0 < last
    → first ≤ last
    → last < 2 ^ 31 - 1
    → increment_lg (at first last last) ≡ (false, at first last 0)
unfolding increment_lg next_lg is_reverse in_ledger same increment ◌+ℤ◌
end-up first last h le b = ground arith

more-down :
    (first last lg : ℕ)
    → 0 < last
    → last < lg
    → last < first
    → lg < 2 ^ 31
    → increment_lg (at first last lg) ≡ (true, at first last (lg - 1))
unfolding increment_lg next_lg is_reverse in_ledger same ◌-ℤ◌
more-down first last lg h k le b = ground arith

end-down :
    (first last : ℕ)
    → 0 < last
    → last < first
    → first < 2 ^ 31
    → increment_lg (at first last last) ≡ (false, at first last 0)
unfolding increment_lg next_lg is_reverse in_ledger same ◌-ℤ◌
end-down first last h le b = ground arith

start :
    (first last : ℕ)
    → increment_lg (new_cursor (pos first) (pos last)) ≡ (true, at first last first)
unfolding increment_lg next_lg is_reverse in_ledger same new_cursor
start first last = ground arith

pub visited_more :
    (fuel : ℕ) (c next : Cursor)
    → increment_lg c ≡ (true, next)
    → visited (suc fuel) c ≡ (next.lg ∷ (visited fuel next).0, (visited fuel next).1)
unfolding visited
visited_more fuel c next e = rw e refl

pub visited_end :
    (fuel : ℕ) (c next : Cursor)
    → increment_lg c ≡ (false, next)
    → visited (suc fuel) c ≡ ([], true)
unfolding visited
visited_end fuel c next e = rw e refl

forward :
    (n fuel first last lg : ℕ)
    → n < fuel
    → 0 < lg
    → first ≤ last
    → last < 2 ^ 31 - 1
    → lg + n ≡ last
    → visited fuel (at first last lg) ≡ (up n (suc lg), true)
forward n zero first last lg f h le b e = absurd (omega arith)
forward zero (suc fuel) first last lg f h le b e =
    let here : lg ≡ last = omega arith in
    rw here (
      unfold up in
      visited_end fuel (at first last last) (at first last 0)
        (end-up first last (omega arith) le b))
forward (suc n) (suc fuel) first last lg f h le b e =
    visited_more fuel (at first last lg) (at first last (suc lg))
      (more-up first last lg h (omega arith) le b)
    ∙ rw (forward n fuel first last (suc lg) (omega arith) (omega arith) le b (omega arith))
        (unfold up in refl)

backward :
    (n fuel first last lg : ℕ)
    → n < fuel
    → 0 < last
    → last < first
    → first < 2 ^ 31
    → lg ≤ first
    → last + n ≡ lg
    → visited fuel (at first last lg) ≡ (down n (lg - 1), true)
backward n zero first last lg f h le b l e = absurd (omega arith)
backward zero (suc fuel) first last lg f h le b l e =
    let here : lg ≡ last = omega arith in
    rw here (
      unfold down in
      visited_end fuel (at first last last) (at first last 0) (end-down first last h le b))
backward (suc n) (suc fuel) first last lg f h le b l e =
    visited_more fuel (at first last lg) (at first last (lg - 1))
      (more-down first last lg h (omega arith) le (omega arith))
    ∙ rw (backward n fuel first last (lg - 1) (omega arith) h le b (omega arith) (omega arith))
        (unfold down in refl)

-- A new cursor, of positive sequences below the largest int32, visits every sequence from its first
-- to its last once and in that order, upwards or downwards, and then ends the iteration, within two
-- calls more than the distance between them.
pub visited_lem :
    (first last fuel : ℕ)
    → 0 < first
    → 0 < last
    → first < 2 ^ 31 - 1
    → last < 2 ^ 31 - 1
    → 1 + ((first - last) + (last - first)) < fuel
    → visited fuel (new_cursor (pos first) (pos last)) ≡ (
      if ltb last first then down (suc (first - last)) first else up (suc (last - first)) first,
      true,
    )
visited_lem first last zero hf hl bf bl f = absurd (omega arith)
visited_lem first last (suc fuel) hf hl bf bl f =
    visited_more fuel (new_cursor (pos first) (pos last)) (at first last first) (start first last)
    ∙ elim (Bool-cases (ltb last first)) [
      | inl reverse ↦
          rw
            (
              backward (first - last) fuel first last first (omega arith) hl (ground arith)
                  (omega arith) (omega arith) (ground arith),
              reverse,
            )
            (unfold down in refl)
      | inr ahead ↦
          rw
            (
              forward (last - first) fuel first last first (ground arith) hf (ground arith) bl
                  (ground arith),
              ahead,
            )
            (unfold up in refl)
    ]
