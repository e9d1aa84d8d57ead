-- ===== src/Ingest/Cursor/Below.antt =====
-- The cursor does not end at a last ledger that is not positive: at ledger 0 it is between iterations.
use dfc_api.Base.{ap, ◌∙◌, ℕ, zero, suc, ◌+◌, ◌-◌, ◌^◌, ◌≤◌, ◌<◌, ◌≡◌, refl, true, ◌++◌, arith}
use dfc_api.Base.Int.{ℤ, pos, ◌-ℤ◌, leb_ℤ}
use dfc_api.Ingest.Cursor.{Cursor, new_cursor, is_reverse, in_ledger, same, next_lg, increment_lg}
use dfc_api.Ingest.Cursor.Iteration.{visited, down, visited_more}

-- A cursor whose last sequence is not positive.
abbrev below : ℕ → ℤ → ℕ → Cursor
below first last lg = record { first_ledger = pos first; last_ledger = last; lg = pos lg }

more-below :
    (first lg : ℕ) (last : ℤ)
    → leb_ℤ last (pos 0) ≡ true
    → 0 < lg
    → lg ≤ first
    → first < 2 ^ 31
    → increment_lg (below first last lg) ≡ (true, below first last (lg - 1))
unfolding increment_lg next_lg is_reverse in_ledger same ◌-ℤ◌
more-below first lg last e h k b = ground arith

start-below :
    (first : ℕ) (last : ℤ)
    → leb_ℤ last (pos 0) ≡ true
    → 0 < first
    → increment_lg (below first last 0) ≡ (true, below first last first)
unfolding increment_lg next_lg is_reverse in_ledger same
start-below first last e h = ground arith

downwards :
    (n fuel first : ℕ) (last : ℤ)
    → leb_ℤ last (pos 0) ≡ true
    → n ≤ first
    → first < 2 ^ 31
    → visited (n + fuel) (below first last n) ≡ (
      down n (n - 1) ++ (visited fuel (below first last 0)).0,
      (visited fuel (below first last 0)).1,
    )
downwards zero fuel first last e h b =
    let same : 0 + fuel ≡ fuel = omega arith in rw same (unfold down in refl)
downwards (suc n) fuel first last e h b =
    let calls : suc n + fuel ≡ suc (n + fuel) = omega arith in
    let one : suc n - 1 ≡ n = omega arith in
    let step : increment_lg (below first last (suc n)) ≡ (true, below first last n) =
      more-below first (suc n) last e (omega arith) h b
      ∙ ap (λ lg. (true, below first last lg)) one in
    rw (calls, one)
      (visited_more (n + fuel) (below first last (suc n)) (below first last n) step
        ∙ rw (downwards n fuel first last e (omega arith) b) (unfold down in refl))

-- A cursor down to a sequence that is not positive visits ledger 0 after the positive ones, and starts
-- again.
pub visited_below :
    (first fuel : ℕ) (last : ℤ)
    → leb_ℤ last (pos 0) ≡ true
    → 0 < first
    → first < 2 ^ 31
    → visited (suc first + fuel) (new_cursor (pos first) last) ≡ (
      down (suc first) first ++ (visited fuel (new_cursor (pos first) last)).0,
      (visited fuel (new_cursor (pos first) last)).1,
    )
unfolding new_cursor
visited_below first fuel last e h b =
    let calls : suc first + fuel ≡ suc (first + fuel) = omega arith in
    rw calls (
      visited_more (first + fuel) (below first last 0) (below first last first)
        (start-below first last e h)
      ∙ rw (downwards first fuel first last e (omega arith) b) (unfold down in refl))
