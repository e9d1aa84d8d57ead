-- ===== src/SimplePath/Path.antt =====
-- services/horizon/internal/simplepath/path.go: a path as a linked list from the source asset to
-- the destination, with the cost that is cached at a node. Assets and the database are interfaces.
pub mod Cost
use dfc_api.Base.{
  ℕ, suc, ◌+◌, ◌-◌, ◌≡◌, ◌↔◌, Bool, true, false, ◌||◌, List, [], ◌∷◌, ◌++◌, Option, none, some,
  String, ltb, if◌then◌else◌, length, take, drop,
}
use dfc_api.Base.Int.{ℤ}
use dfc_api.SimplePath.Result.{Err, Result, ok, err, ◌>>=◌}
use dfc_api.SimplePath.OrderBook.{Offer, cost_to_consume_liquidity}

-- What the finder uses of xdr.Asset: `Equals` decides equality, `String` names the asset.
pub record Assets (A : Type 0) : Type 0 where
  pub equals : A → A → Bool
  pub text : A → String
  pub equals_iff : (a b : A) → (equals a b ≡ true) ↔ (a ≡ b)

-- The dfc-core database as one transaction sees it: the rows of the order book that sells the first
-- asset for the second, and the assets that some offer connects.
pub record Database (A : Type 0) : Type 0 where
  pub offers : A → A → Result (List (Option Offer))
  pub connected : A → Result (List A)
  pub begin : Option Err
  pub isolate : Option Err

-- `last` is a node without a tail, at depth 1; `hop` has its asset, its cached cost and its depth.
pub data PathNode (A : Type 0) : Type 0 where
  last : A → PathNode A
  hop : A → Option ℤ → ℕ → PathNode A → PathNode A

module _ {A : Type 0} where
  unfoldable pub asset : PathNode A → A
  asset (last a) = a
  asset (hop a cached n tail) = a

  unfoldable pub depth : PathNode A → ℕ
  depth (last a) = 1
  depth (hop a cached n tail) = n

  unfoldable pub destination : PathNode A → A
  destination (last a) = a
  destination (hop a cached n tail) = destination tail

  unfoldable pub source : PathNode A → A
  unfolding asset
  source p = asset p

  unfoldable pub flatten : PathNode A → List A
  flatten (last a) = a ∷ []
  flatten (hop a cached n tail) = a ∷ flatten tail

  -- Without the first and the last asset.
  unfoldable pub path : PathNode A → List A
  unfolding flatten
  path p =
      let all = flatten p in if ltb (length all) 2 then [] else take (length all - 2) (drop 1 all)

module _ {A : Type 0} ⦃assets : Assets A⦄ where
  unfoldable pub is_on_path : PathNode A → A → Bool
  is_on_path (last a) b = assets.equals b a
  is_on_path (hop a cached n tail) b = assets.equals b a || is_on_path tail b

module _ {A : Type 0} (db : Database A) where
  -- The loop of `Cost`, from the destination to this node: a cached cost replaces the computed one.
  unfoldable pub walk : PathNode A → ℤ → Result ℤ
  unfolding asset
  walk (last a) amount = ok amount
  walk (hop a cached n tail) amount = do
    result ← walk tail amount
    elim cached [
      | some c ↦ ok c
      | none ↦ cost_to_consume_liquidity (db.offers (asset tail) a) result
    ]

  -- The cost, and the node with its cache.
  unfoldable pub keep : A → ℕ → PathNode A → Result ℤ → Result ℤ × PathNode A
  keep a n tail (ok c) = (ok c, hop a (some c) n tail)
  keep a n tail (err e) = (err e, hop a none n tail)

  unfoldable pub cost : PathNode A → ℤ → Result ℤ × PathNode A
  unfolding keep
  cost (last a) amount = (ok amount, last a)
  cost (hop a (some c) n tail) amount = (ok c, hop a (some c) n tail)
  cost (hop a none n tail) amount = keep a n tail (walk (hop a none n tail) amount)
