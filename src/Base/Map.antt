-- ===== src/Base/Map.antt =====
-- A Go map with string keys, as an association list. Go leaves the order of a `range` open; the list
-- fixes one.
use Prim.Native.Nat.{ℕ, ◌+◌, ◌≤◌}
use Prim.Native.String.{String}
use mathlib.Core.Path.{◌≡◌, refl}
use mathlib.Core.Logic.{inl, inr}
use mathlib.Core.List.{List, [], ◌∷◌}
use mathlib.Core.Option.{Option, none, some}
use native.Mathlib.Omega.{arith}
use text.Mathlib.Text.{◌==◌}
use text.Mathlib.TextEquality.{eq_iff}
use dfc_api.Base.Tests.{if◌then◌else◌, Bool-cases}

module _ {ℓ} {V : Type ℓ} where
  unfoldable pub lookup : String → List (String × V) → Option V
  lookup key [] = none
  lookup key ((here, v) ∷ table) = if here == key then some v else lookup key table

  unfoldable pub insert : String → V → List (String × V) → List (String × V)
  insert key v [] = (key, v) ∷ []
  insert key v ((here, held) ∷ table) =
      if here == key then (here, v) ∷ table else (here, held) ∷ insert key v table

  unfoldable pub delete : String → List (String × V) → List (String × V)
  delete key [] = []
  delete key ((here, held) ∷ table) =
      let rest = delete key table in if here == key then rest else (here, held) ∷ rest

  unfoldable pub keys : List (String × V) → List String
  keys [] = []
  keys ((here, held) ∷ table) = here ∷ keys table

  -- The sum of a number over all entries.
  unfoldable pub total : (V → ℕ) → List (String × V) → ℕ
  total f [] = 0
  total f ((here, held) ∷ table) = f held + total f table

  pub lookup-insert :
      (key here : String) (v : V) (table : List (String × V))
      → lookup here (insert key v table) ≡ (if key == here then some v else lookup here table)
  unfolding lookup insert
  lookup-insert key here v [] = refl
  lookup-insert key here v ((front, held) ∷ table) =
      ground (
        arith,
        eq_iff key here,
        eq_iff front key,
        eq_iff front here,
        lookup-insert key here v table,
      )

  pub lookup-delete :
      (key here : String) (table : List (String × V))
      → lookup here (delete key table) ≡ (if key == here then none else lookup here table)
  unfolding lookup delete
  lookup-delete key here [] = ground arith
  lookup-delete key here ((front, held) ∷ table) =
      ground
        (arith, eq_iff key here, eq_iff front key, eq_iff front here, lookup-delete key here table)

  pub total-insert_new :
      (f : V → ℕ) (key : String) (v : V) (table : List (String × V))
      → lookup key table ≡ none
      → total f (insert key v table) ≡ total f table + f v
  unfolding lookup insert total
  total-insert_new f key v [] h = omega arith
  total-insert_new f key v ((front, held) ∷ table) h =
      ground (arith, total-insert_new f key v table)

  pub total-insert :
      (f : V → ℕ) (key : String) (v held : V) (table : List (String × V))
      → lookup key table ≡ some held
      → total f (insert key v table) + f held ≡ total f table + f v
  unfolding lookup insert total
  total-insert f key v held [] h = cc
  total-insert f key v held ((front, u) ∷ table) h = ground (arith, total-insert f key v held table)

  pub total-delete_le :
      (f : V → ℕ) (key : String) (table : List (String × V))
      → total f (delete key table) ≤ total f table
  unfolding delete total
  total-delete_le f key [] = omega arith
  total-delete_le f key ((front, u) ∷ table) = ground (arith, total-delete_le f key table)

  -- The entry of one key is part of the sum.
  pub le-total :
      (f : V → ℕ) (key : String) (held : V) (table : List (String × V))
      → lookup key table ≡ some held
      → f held ≤ total f table
  unfolding lookup total
  le-total f key held [] h = cc
  le-total f key held ((front, u) ∷ table) h = ground (arith, le-total f key held table)

  -- No key occurs twice.
  abbrev pub Distinct : List (String × V) → Type ℓ
  Distinct [] = Unit
  Distinct ((here, held) ∷ table) = (lookup here table ≡ none) × Distinct table

  pub delete_absent :
      (key : String) (table : List (String × V))
      → lookup key table ≡ none
      → delete key table ≡ table
  unfolding lookup delete
  delete_absent key [] h = refl
  delete_absent key ((front, u) ∷ table) h = ground (arith, delete_absent key table)

  pub total-delete :
      (f : V → ℕ) (key : String) (held : V) (table : List (String × V))
      → Distinct table
      → lookup key table ≡ some held
      → total f (delete key table) + f held ≡ total f table
  unfolding lookup delete total
  total-delete f key held [] d h = cc
  total-delete f key held ((front, u) ∷ table) d h =
      ground (arith, eq_iff front key, delete_absent key table, total-delete f key held table d.1)

  pub insert-Distinct :
      (key : String) (v : V) (table : List (String × V))
      → Distinct table
      → Distinct (insert key v table)
  unfolding insert
  insert-Distinct key v [] d = (unfold lookup in refl, tt)
  insert-Distinct key v ((front, u) ∷ table) d = elim (Bool-cases (front == key)) [
    | inl same ↦ rw same d
    | inr other ↦ rw other (
      ground (arith, lookup-insert key front v table, eq_iff key front, eq_iff front key),
      insert-Distinct key v table d.1,
    )
  ]

  pub delete-Distinct :
      (key : String) (table : List (String × V)) → Distinct table → Distinct (delete key table)
  unfolding delete
  delete-Distinct key [] d = tt
  delete-Distinct key ((front, u) ∷ table) d = elim (Bool-cases (front == key)) [
    | inl same ↦ rw same (delete-Distinct key table d.1)
    | inr other ↦ rw other (
      ground (arith, lookup-delete key front table, eq_iff key front, eq_iff front key),
      delete-Distinct key table d.1,
    )
  ]

-- A predicate of every entry.
module _ {ℓ κ} {V : Type ℓ} (P : String → V → Type κ) where
  abbrev pub Entries : List (String × V) → Type (ℓ ⊔ κ)
  Entries table = (key : String) (v : V) → lookup key table ≡ some v → P key v

  pub insert-Entries :
      (key : String) (v : V) (table : List (String × V))
      → P key v
      → Entries table
      → Entries (insert key v table)
  insert-Entries key v table h all here u e = elim (Bool-cases (key == here)) [
    | inl same ↦
        let found : u ≡ v = ground (arith, lookup-insert key here v table) in
        let keyed : here ≡ key = ground (arith, eq_iff key here) in rw (found, keyed) h
    | inr other ↦ all here u (ground (arith, lookup-insert key here v table))
  ]

  pub delete-Entries :
      (key : String) (table : List (String × V)) → Entries table → Entries (delete key table)
  delete-Entries key table all here u e = all here u (ground (arith, lookup-delete key here table))
