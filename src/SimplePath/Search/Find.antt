-- ===== src/SimplePath/Search/Find.antt =====
-- `Find` as a whole.
use dfc_api.Base.{
  ℕ, ◌-◌, ◌≤◌, ◌<◌, ◌≡◌, refl, false, ◌||◌, none, some, arith, ltb, ◌==◌, if◌then◌else◌, Bool-cases,
  Option-cases, inl, inr, length, All,
}
use dfc_api.SimplePath.Result.{Err}
use dfc_api.SimplePath.Path.{Assets, Database, depth, destination}
use dfc_api.SimplePath.Path.Cost.{chain_cost}
use dfc_api.SimplePath.Search.{
  max_path_length, max_results, Query, Search, has_more, init, loop, run, find,
}
use dfc_api.SimplePath.Search.Sound.{IsSound, IsAnswer, loop-IsSound}
use dfc_api.SimplePath.Search.Termination.{nodes, weight, IsBranching, loop-ends}

-- The longest path that `Find` looks for: 0 asks for the default.
abbrev pub allowed : ℕ → ℕ
allowed max_length = if max_length == 0 then max_path_length else max_length

module _ {A : Type 0} ⦃assets : Assets A⦄ (db : Database A) (q : Query A) where
  init-IsSound : (m : ℕ) → 0 < m → IsSound db q m (init q m)
  unfolding init depth destination chain_cost
  init-IsSound m h = record {
    query = refl;
    max_length = refl;
    targets = refl;
    queued = (
      record {
        node = record { simple = tt; counted = tt; within = omega arith; ends = refl; cached = tt };
        costs = refl;
      },
      tt,
    );
    found = tt;
    bounded = omega arith;
  }

  -- `Run` on a new search, whether the transaction can be opened or not.
  run-begin :
      (fuel m : ℕ) (e : Err)
      → db.begin ≡ some e
      → run db fuel (init q m) ≡ record (init q m) { err = some e }
  unfolding run init
  run-begin fuel m e h = ground arith

  run-isolate :
      (fuel m : ℕ) (e : Err)
      → db.begin ≡ none
      → db.isolate ≡ some e
      → run db fuel (init q m) ≡ record (init q m) { err = some e }
  unfolding run init
  run-isolate fuel m e h k = ground arith

  run-loop :
      (fuel m : ℕ)
      → db.begin ≡ none
      → db.isolate ≡ none
      → run db fuel (init q m) ≡ loop db fuel (init q m)
  unfolding run init
  run-loop fuel m h k = ground arith

  abbrev Answered : ℕ → Search A → Type 0
  Answered m s = All (IsAnswer db q m) s.results × (length s.results ≤ max_results)

  run-Answered : (fuel m : ℕ) → 0 < m → Answered m (run db fuel (init q m))
  unfolding init
  run-Answered fuel m h = elim (Option-cases db.begin) [
    | inr (e, failed) ↦ rw (run-begin fuel m e failed) (tt, omega arith)
    | inl begun ↦ elim (Option-cases db.isolate) [
      | inr (e, failed) ↦ rw (run-isolate fuel m e begun failed) (tt, omega arith)
      | inl isolated ↦
          let v = loop-IsSound db q m fuel (init q m) (init-IsSound m h) in
          rw (run-loop fuel m begun isolated) (v.found, v.bounded)
    ]
  ]

  -- Every path that `Find` returns is sound, and there are at most twenty.
  pub find-Answered :
      (fuel max_length : ℕ)
      → All (IsAnswer db q (allowed max_length)) (find db fuel q max_length).0
        × (length (find db fuel q max_length).0 ≤ max_results)
  unfolding find
  find-Answered fuel max_length = elim (Bool-cases (length q.source_assets == 0)) [
    | inl empty ↦ rw empty (tt, omega arith)
    | inr some_source ↦
        elim (Bool-cases (ltb (allowed max_length) 2 || ltb max_path_length (allowed max_length))) [
          | inl bad ↦ rw (some_source, bad) (tt, omega arith)
          | inr fits ↦
              rw (some_source, fits) (run-Answered fuel (allowed max_length) (ground arith))
        ]
  ]

  -- Where no asset is connected to more than `b` others, as much fuel as the tree of that branching
  -- has nodes lets the search run to its end.
  pub run-ends :
      (b fuel max_length : ℕ)
      → IsBranching db b (allowed max_length)
      → nodes b (allowed max_length - 1) ≤ fuel
      → has_more (run db fuel (init q (allowed max_length))) ≡ false
  unfolding init
  run-ends b fuel max_length h k =
      let m = allowed max_length in
      elim (Option-cases db.begin) [
        | inr (e, failed) ↦ rw (run-begin fuel m e failed) (unfold has_more in refl)
        | inl begun ↦ elim (Option-cases db.isolate) [
          | inr (e, failed) ↦ rw (run-isolate fuel m e begun failed) (unfold has_more in refl)
          | inl isolated ↦ rw (run-loop fuel m begun isolated) (
              loop-ends db b m q fuel (init q m) h (init-IsSound m (ground arith))
                (unfold weight depth in omega arith))
        ]
      ]
