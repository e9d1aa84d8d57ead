-- ===== src/SimplePath/Search.antt =====
-- services/horizon/internal/simplepath/search.go and finder.go: breadth first search for paths
-- from the destination asset back to one of the source assets.
pub mod Termination
pub mod Steps
pub mod Sound
pub mod Find
use text.Mathlib.Text.{◌==◌ as str_eq}
use dfc_api.Base.{
  ℕ, zero, suc, ◌+◌, ◌-◌, Bool, true, false, not, ◌&&◌, ◌||◌, List, [], ◌∷◌, ◌++◌, Option, none,
  some, String, ltb, leb, ◌==◌, if◌then◌else◌, length, map,
}
use dfc_api.Base.Int.{ℤ, pos}
use dfc_api.SimplePath.Result.{
  Err, Result, ok, err, not_enough, no_source_assets, invalid_max_length,
}
use dfc_api.SimplePath.Path.{
  Assets, Database, PathNode, last, hop, asset, depth, path, source, destination, is_on_path, cost,
}

abbrev pub max_path_length : ℕ
max_path_length = 7

abbrev pub max_results : ℕ
max_results = 20

pub record Query (A : Type 0) : Type 0 where
  pub destination_asset : A
  pub destination_amount : ℤ
  pub source_assets : List A

-- paths.Path
pub record PaymentPath (A : Type 0) : Type 0 where
  pub path : List A
  pub source : A
  pub destination : A
  pub cost : ℤ

pub record ComputedNode (A : Type 0) : Type 0 where
  pub path : PathNode A
  pub cost : ℤ

pub record Search (A : Type 0) : Type 0 where
  pub query : Query A
  pub max_length : ℕ
  pub queue : List (ComputedNode A)
  pub targets : List String
  pub err : Option Err
  pub results : List (PaymentPath A)

unfoldable pub as_path : {A : Type 0} → ComputedNode A → PaymentPath A
as_path c = record {
  path = path c.path;
  source = source c.path;
  destination = destination c.path;
  cost = c.cost;
}

-- A key of the map of targets.
unfoldable pub is_key : String → List String → Bool
is_key id [] = false
is_key id (t ∷ ts) = str_eq t id || is_key id ts

unfoldable pub has_more : {A : Type 0} → Search A → Bool
has_more s = elim s.err [
  | some e ↦ false
  | none ↦ ltb (length s.results) max_results && ltb 0 (length s.queue)
]

module _ {A : Type 0} ⦃assets : Assets A⦄ where
  unfoldable pub is_target : Search A → A → Bool
  is_target s a = is_key (assets.text a) s.targets

  -- `Cost` at the destination is the amount itself.
  unfoldable pub init : Query A → ℕ → Search A
  init q max_length = record {
    query = q;
    max_length = max_length;
    queue = record { path = last q.destination_asset; cost = q.destination_amount } ∷ [];
    targets = map assets.text q.source_assets;
    err = none;
    results = [];
  }

module _ {A : Type 0} ⦃assets : Assets A⦄ (db : Database A) where
  -- What becomes of a new path: too little depth is no error, any other error ends the search.
  unfoldable pub enqueue : Search A → Result ℤ × PathNode A → Search A
  enqueue s (ok c, node) = record s {
    queue = s.queue ++ record { path = node; cost = c } ∷ [];
    err = none;
  }
  enqueue s (err not_enough, node) = record s { err = none }
  enqueue s (err e, node) = record s { err = some e }

  -- The loop of `extendSearch` over the connected assets; it returns at the first error.
  unfoldable pub extend_each : PathNode A → List A → Search A → Search A
  extend_each p [] s = s
  extend_each p (a ∷ connected) s = elim s.err [
    | some e ↦ s
    | none ↦ elim (is_on_path p a || depth p == s.max_length - 1 && not (is_target s a)) [
      | true ↦ extend_each p connected s
      | false ↦
          extend_each p connected
            (enqueue s (cost db (hop a none (depth p + 1) p) s.query.destination_amount))
    ]
  ]

  unfoldable pub extend_search : PathNode A → Result (List A) → Search A → Search A
  extend_search p (err e) s = record s { err = some e }
  extend_search p (ok connected) s = extend_each p connected s

  -- What `runOnce` does with the head `cur`, which is already taken off the queue of `s`.
  unfoldable pub visit : ComputedNode A → Search A → Search A
  visit cur s =
      let found =
        if is_target s (asset cur.path)
        then record s { results = s.results ++ as_path cur ∷ [] }
        else s in
      if depth cur.path == s.max_length
      then found
      else extend_search cur.path (db.connected (asset cur.path)) found

  -- `runOnce`, for the queue given as the second argument.
  unfoldable pub run_once : List (ComputedNode A) → Search A → Search A
  run_once [] s = s
  run_once (cur ∷ queue) s = visit cur (record s { queue = queue })

  unfoldable pub loop : ℕ → Search A → Search A
  loop zero s = s
  loop (suc fuel) s = elim (has_more s) [ true ↦ loop fuel (run_once s.queue s) | false ↦ s ]

  -- `Run`: the transaction is begun and isolated first.
  unfoldable pub run : ℕ → Search A → Search A
  run fuel s = elim s.err [
    | some e ↦ s
    | none ↦ elim db.begin [
      | some e ↦ record s { err = some e }
      | none ↦ elim db.isolate [ some e ↦ record s { err = some e } | none ↦ loop fuel s ]
    ]
  ]

  -- The results and the error of `Find`.
  unfoldable pub find : ℕ → Query A → ℕ → List (PaymentPath A) × Option Err
  find fuel q max_length =
      let length' = if max_length == 0 then max_path_length else max_length in
      let searched = run fuel (init q length') in
      if length q.source_assets == 0
      then ([], some no_source_assets)
      else if ltb length' 2 || ltb max_path_length length'
      then ([], some invalid_max_length)
      else (searched.results, searched.err)
