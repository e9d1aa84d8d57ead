-- ===== src/SimplePath/Search/Steps.antt =====
-- The rounds of the loops of search.go, one equation for each branch.
use dfc_api.Base.{
  ℕ, suc, ◌+◌, ◌-◌, ◌≤◌, ◌<◌, ◌≡◌, refl, Bool, true, false, not, ◌&&◌, ◌||◌, List, ◌∷◌, none, some,
  arith, ◌==◌, length,
}
use dfc_api.SimplePath.Result.{Err}
use dfc_api.SimplePath.Path.{Assets, Database, PathNode, hop, depth, is_on_path, cost}
use dfc_api.SimplePath.Search.{
  max_results, Search, has_more, is_target, enqueue, extend_each, run_once, loop,
}

pub below_max : (d n m : ℕ) → d ≤ m → n ≡ m → (d == n) ≡ false → d < m
below_max d n m h e k = ground arith

pub or_false : (a b : Bool) → a || b ≡ false → a ≡ false
or_false false b h = refl
or_false true b h = cc

pub room_left : {A : Type 0} (s : Search A) → has_more s ≡ true → length s.results < max_results
unfolding has_more
room_left s h = ground arith

module _ {A : Type 0} ⦃assets : Assets A⦄ (db : Database A) (fuel : ℕ) (s : Search A) where
  pub loop-more : has_more s ≡ true → loop db (suc fuel) s ≡ loop db fuel (run_once db s.queue s)
  unfolding loop
  loop-more h = rw (h, loop)

  pub loop-done : has_more s ≡ false → loop db (suc fuel) s ≡ s
  unfolding loop
  loop-done h = rw (h, loop)

-- One round of the loop of `extendSearch`.
module _ {A : Type 0} ⦃assets : Assets A⦄ (db : Database A) (p : PathNode A) (a : A)
    (connected : List A) (s : Search A) where
  pub extend_each-stop : (e : Err) → s.err ≡ some e → extend_each db p (a ∷ connected) s ≡ s
  unfolding extend_each
  extend_each-stop e h = ground arith

  pub extend_each-skip :
      s.err ≡ none
      → is_on_path p a || depth p == s.max_length - 1 && not (is_target s a) ≡ true
      → extend_each db p (a ∷ connected) s ≡ extend_each db p connected s
  unfolding extend_each
  extend_each-skip h k = ground arith

  pub extend_each-take :
      s.err ≡ none
      → is_on_path p a || depth p == s.max_length - 1 && not (is_target s a) ≡ false
      → extend_each db p (a ∷ connected) s
        ≡ extend_each db p connected
            (enqueue db s (cost db (hop a none (depth p + 1) p) s.query.destination_amount))
  unfolding extend_each
  extend_each-take h k = ground arith
