-- ===== src/Archivist/Range/Checkpoints.antt =====
-- Where checkpoints lie, and which of them a range visits.
use dfc_api.Base.{
  max, min, ℕ, zero, suc, ◌+◌, ◌-◌, ◌*◌, ◌%◌, ◌^◌, ◌≤◌, ◌<◌, ◌≡◌, ◌∷◌, some, arith, ltb, length,
  get_elem?, ◌↔◌, if◌then◌else◌, none, true, sym,
}
use dfc_api.Archivist.Range.{
  Range, prev_checkpoint, next_checkpoint, make_range, clamp, checkpoints_from, checkpoints, size,
}

-- A checkpoint is one less than a multiple of 64.
abbrev pub IsCheckpoint : ℕ → Type 0
IsCheckpoint c = (c + 1) % 64 ≡ 0

-- From 64 on, the previous checkpoint is the last one below a ledger; before, it is the first one.
pub prev_checkpoint_lem :
    (i : ℕ)
    → IsCheckpoint (prev_checkpoint i)
      × (64 ≤ i → (prev_checkpoint i < i) × (i ≤ prev_checkpoint i + 64))
      × (i < 64 → prev_checkpoint i ≡ 63)
unfolding prev_checkpoint
prev_checkpoint_lem i = (ground arith, λ h. (ground arith, ground arith), λ h. ground arith)

-- The next checkpoint of a uint32 above 0 is the first one that is not below the ledger before it:
-- at a multiple of 64, and only there, it is below the ledger itself.
pub next_checkpoint_lem :
    (i : ℕ)
    → i < 2 ^ 32
    → 0 < i
    → IsCheckpoint (next_checkpoint i)
      × (i ≤ next_checkpoint i + 1)
      × (next_checkpoint i + 1 < i + 64)
      × ((next_checkpoint i < i) ↔ (i % 64 ≡ 0))
unfolding next_checkpoint
next_checkpoint_lem i w h = (ground arith, ground arith, ground arith, ground arith)

-- A range of checkpoints whose ends are in order.
pub record IsRange (r : Range) : Type 0 where
  pub first : IsCheckpoint r.low
  pub last : IsCheckpoint r.high
  pub ordered : r.low ≤ r.high
  pub fits : r.high < 2 ^ 32

-- Whatever two uint32 bounds are given, in order or not, the range has checkpoints for ends.
pub make_range-IsRange :
    (low high : ℕ) → low < 2 ^ 32 → high < 2 ^ 32 → IsRange (make_range low high)
unfolding make_range next_checkpoint prev_checkpoint
make_range-IsRange low high a b = record {
  first = ground arith;
  last = ground arith;
  ordered = ground arith;
  fits = ground arith;
}

checkpoints_from_lem :
    (fuel i k high : ℕ)
    → high ≡ i + 64 * k
    → k ≤ fuel
    → (length (checkpoints_from fuel i high) ≡ k)
      × ((j : ℕ)
          → get_elem? (checkpoints_from fuel i high) j
            ≡ (if ltb j k then some (i + 64 * j) else none))
unfolding checkpoints_from
checkpoints_from_lem zero i zero high e h = (omega arith, λ j. ground arith)
checkpoints_from_lem zero i (suc k) high e h = absurd (omega arith)
checkpoints_from_lem (suc fuel) i zero high e h = (ground arith, λ j. ground arith)
checkpoints_from_lem (suc fuel) i (suc k) high e h =
    let (long, visited) = checkpoints_from_lem fuel (i + 64) k high (omega arith) (omega arith) in
    let inside : ltb i high ≡ true = ground arith in
    rw inside (omega (arith, long), λ j. later visited j)
  where
    later :
        ((j : ℕ)
          → get_elem? (checkpoints_from fuel (i + 64) high) j
            ≡ (if ltb j k then some (i + 64 + 64 * j) else none))
        → (j : ℕ)
        → get_elem? (i ∷ checkpoints_from fuel (i + 64) high) j
          ≡ (if ltb j (suc k) then some (i + 64 * j) else none)
    later visited zero = ground arith
    later visited (suc j) = ground (arith, visited j)

-- A range visits the checkpoints from its low end on, in order, each once and with none left out,
-- as many as its size says. The high end is the size-th of them, and is not visited.
pub checkpoints_lem :
    (r : Range)
    → IsRange r
    → (length (checkpoints r) ≡ size r)
      × (r.low + 64 * size r ≡ r.high)
      × ((j : ℕ)
          → get_elem? (checkpoints r) j ≡ (if ltb j (size r) then some (r.low + 64 * j) else none))
unfolding checkpoints size
checkpoints_lem r v =
    let apart : r.low + 64 * size r ≡ r.high =
      unfold size in omega (arith, v.first, v.last, v.ordered, v.fits) in
    let (long, visited) =
      checkpoints_from_lem (r.high - r.low) r.low (size r) r.high (sym apart)
        (omega (arith, apart)) in
    (long, apart, visited)

-- Two ranges of checkpoints that overlap are clamped to a range of checkpoints whose high end is
-- the smaller of theirs. Its low end is the larger of theirs if that is the first checkpoint, and
-- otherwise one checkpoint before the larger of theirs.
pub clamp_lem :
    (other r : Range)
    → IsRange other
    → IsRange r
    → max r.low other.low ≤ min r.high other.high
    → IsRange (clamp other r)
      × ((clamp other r).high ≡ min r.high other.high)
      × (max r.low other.low ≡ 63 → (clamp other r).low ≡ 63)
      × (64 ≤ max r.low other.low → (clamp other r).low + 64 ≡ max r.low other.low)
unfolding clamp make_range prev_checkpoint next_checkpoint
clamp_lem other r v w o =
    let record { first = a; last = b; ordered = c; fits = d } = v in
    let record { first = f; last = g; ordered = h; fits = i } = w in
    (
      record {
        first = ground arith;
        last = ground arith;
        ordered = ground arith;
        fits = ground arith;
      },
      ground arith,
      λ e. ground arith,
      λ e. ground arith,
    )
