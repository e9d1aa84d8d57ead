-- ===== src/SimplePath/Path/Cost.antt =====
-- The caches of a path change no cost: `Cost` is the chain of the order books along the path.
use dfc_api.Base.{ℕ, ◌≡◌, ◌∙◌, refl, sym, ap, Option, none, some, arith}
use dfc_api.Base.Int.{ℤ}
use dfc_api.SimplePath.Result.{Result, ok, err, ◌>>=◌, >>=-eq-ok}
use dfc_api.SimplePath.OrderBook.{cost_to_consume_liquidity}
use dfc_api.SimplePath.Path.{Database, PathNode, last, hop, asset, walk, keep, cost}

module _ {A : Type 0} (db : Database A) where
  -- The cost with no cache: each hop consumes the book between its asset and the next one.
  unfoldable pub chain_cost : PathNode A → ℤ → Result ℤ
  chain_cost (last a) amount = ok amount
  chain_cost (hop a cached n tail) amount = do
    result ← chain_cost tail amount
    cost_to_consume_liquidity (db.offers (asset tail) a) result

  -- Every cached cost along the path is the cost of the chain from there.
  abbrev pub IsCached : ℤ → PathNode A → Type 0
  IsCached amount (last a) = Unit {0}
  IsCached amount (hop a cached n tail) =
      IsCached amount tail
      × ((c : ℤ) → cached ≡ some c → chain_cost (hop a cached n tail) amount ≡ ok c)

  walk-eq-chain_cost :
      (p : PathNode A) (amount : ℤ) → IsCached amount p → walk db p amount ≡ chain_cost p amount
  unfolding walk chain_cost
  walk-eq-chain_cost (last a) amount h = refl
  walk-eq-chain_cost (hop a none n tail) amount h = rw (walk-eq-chain_cost tail amount h.0)
  walk-eq-chain_cost (hop a (some c) n tail) amount h =
      let whole = h.1 c refl in
      let (r, below, _) = >>=-eq-ok _ (chain_cost tail amount) whole in
      rw (walk-eq-chain_cost tail amount h.0, whole, below)

  keep_result : (a : A) (n : ℕ) (tail : PathNode A) (r : Result ℤ) → (keep db a n tail r).0 ≡ r
  unfolding keep
  keep_result a n tail (ok c) = refl
  keep_result a n tail (err e) = refl

  pub cost-eq-chain_cost :
      (p : PathNode A) (amount : ℤ) → IsCached amount p → (cost db p amount).0 ≡ chain_cost p amount
  unfolding cost
  cost-eq-chain_cost (last a) amount h = unfold chain_cost in refl
  cost-eq-chain_cost (hop a (some c) n tail) amount h = sym (h.1 c refl)
  cost-eq-chain_cost (hop a none n tail) amount h =
      keep_result a n tail (walk db (hop a none n tail) amount)
      ∙ walk-eq-chain_cost (hop a none n tail) amount h

  keep-IsCached :
      (a : A) (n : ℕ) (tail : PathNode A) (amount : ℤ) (r : Result ℤ)
      → IsCached amount tail
      → chain_cost (hop a none n tail) amount ≡ r
      → IsCached amount (keep db a n tail r).1
  unfolding keep chain_cost
  keep-IsCached a n tail amount (ok c) h e = (h, λ d k. e ∙ ap ok (ground arith))
  keep-IsCached a n tail amount (err x) h e = (h, λ d k. cc)

  -- The node that `Cost` leaves behind has right caches again.
  pub cost-IsCached :
      (p : PathNode A) (amount : ℤ) → IsCached amount p → IsCached amount (cost db p amount).1
  unfolding cost
  cost-IsCached (last a) amount h = h
  cost-IsCached (hop a (some c) n tail) amount h = h
  cost-IsCached (hop a none n tail) amount h =
      keep-IsCached a n tail amount (walk db (hop a none n tail) amount) h.0
        (sym (walk-eq-chain_cost (hop a none n tail) amount h))

  -- `Cost` changes nothing of a node but its cache.
  keep_same :
      (a : A) (n : ℕ) (tail : PathNode A) (r : Result ℤ)
      → (c : Option ℤ) × ((keep db a n tail r).1 ≡ hop a c n tail)
  unfolding keep
  keep_same a n tail (ok c) = (some c, refl)
  keep_same a n tail (err e) = (none, refl)

  pub cost_same :
      (a : A) (cached : Option ℤ) (n : ℕ) (tail : PathNode A) (amount : ℤ)
      → (c : Option ℤ) × ((cost db (hop a cached n tail) amount).1 ≡ hop a c n tail)
  unfolding cost
  cost_same a (some c) n tail amount = (some c, refl)
  cost_same a none n tail amount = keep_same a n tail (walk db (hop a none n tail) amount)
