-- ===== src/Archivist/Range.antt =====
-- tools/dfc-archivist/internal/range.go. A uint32 is a number below 2^32.
pub mod Checkpoints
pub mod Groups
use dfc_api.Base.{
  ℕ, zero, suc, ◌+◌, ◌-◌, ◌*◌, ◌/◌, ◌%◌, ◌^◌, List, [], ◌∷◌, Option, none, some, ltb, leb, ◌==◌,
  if◌then◌else◌,
}

abbrev pub checkpoint_freq : ℕ
checkpoint_freq = 64

pub record Range : Type 0 where
  pub low : ℕ
  pub high : ℕ

unfoldable pub prev_checkpoint : ℕ → ℕ
prev_checkpoint i =
    if ltb i checkpoint_freq then checkpoint_freq - 1 else i / checkpoint_freq * checkpoint_freq - 1

-- In 64 bits, where no sum wraps for a uint32.
unfoldable pub next_checkpoint : ℕ → ℕ
next_checkpoint i =
    if i == 0
    then checkpoint_freq - 1
    else let n = (i + checkpoint_freq - 1) / checkpoint_freq * checkpoint_freq - 1 in
      if leb 4294967295 n then 4294967295 else n

unfoldable pub make_range : ℕ → ℕ → Range
make_range low high =
    let high' = if ltb high low then low else high in
    record { low = prev_checkpoint low; high = next_checkpoint high' }

unfoldable pub clamp : Range → Range → Range
clamp other r =
    let low = if ltb r.low other.low then other.low else r.low in
    let high = if ltb other.high r.high then other.high else r.high in make_range low high

-- The loop of the goroutine, whose index is a uint64. The fuel bounds the steps.
unfoldable pub checkpoints_from : ℕ → ℕ → ℕ → List ℕ
checkpoints_from zero i high = []
checkpoints_from (suc fuel) i high =
    let rest = checkpoints_from fuel (i + checkpoint_freq) high in
    if ltb i high then i ∷ rest else []

-- What the channel of `Checkpoints` delivers before it is closed.
unfoldable pub checkpoints : Range → List ℕ
unfolding checkpoints_from
checkpoints r = checkpoints_from (r.high - r.low) r.low r.high

unfoldable pub size : Range → ℕ
size r = (r.high + 2 ^ 32 - r.low) % 2 ^ 32 / checkpoint_freq

-- The loop of `fmtRangeList` over the sorted list, with the ranges in place of their print.
unfoldable pub collapse_from : Range → List ℕ → List Range
collapse_from curr [] = curr ∷ []
collapse_from curr (t ∷ ts) =
    let longer = collapse_from (record curr { high = t }) ts in
    let next = collapse_from (record { low = t; high = t }) ts in
    if (curr.high + checkpoint_freq) % 2 ^ 32 == t then longer else curr ∷ next

unfoldable pub collapse : List ℕ → List Range
unfolding collapse_from
collapse [] = []
collapse (t ∷ ts) = collapse_from (record { low = t; high = t }) ts
