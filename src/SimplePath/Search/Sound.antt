-- ===== src/SimplePath/Search/Sound.antt =====
-- Every path that the search returns is a real one: it starts at a source asset, ends at the
-- destination, repeats no asset, is no longer than allowed, and costs what its order books say.
use mathlib.Core.Path.{subst}
use dfc_api.Base.{
  ℕ, zero, suc, ◌+◌, ◌-◌, ◌≤◌, ◌<◌, ◌≡◌, refl, ◌∙◌, sym, ap, true, false, not, ◌&&◌, ◌||◌, List, [],
  ◌∷◌, ◌++◌, Option, none, some, arith, ◌==◌, if◌then◌else◌, Bool-cases, Option-cases, inl, inr,
  length, length-append, map, All, All-append,
}
use dfc_api.Base.Int.{ℤ}
use dfc_api.SimplePath.Result.{Err, Result, ok, err, not_enough}
use dfc_api.SimplePath.Path.{
  Assets, Database, PathNode, last, hop, asset, depth, destination, is_on_path, cost,
}
use dfc_api.SimplePath.Path.Cost.{
  chain_cost, IsCached, cost-eq-chain_cost, cost-IsCached, cost_same,
}
use dfc_api.SimplePath.Search.Steps.{
  below_max, or_false, room_left, loop-more, loop-done, extend_each-stop, extend_each-skip,
  extend_each-take,
}
use dfc_api.SimplePath.Search.{
  max_results, Query, PaymentPath, ComputedNode, Search, as_path, is_key, has_more, is_target,
  enqueue, extend_each, extend_search, visit, run_once, loop,
}

module _ {A : Type 0} ⦃assets : Assets A⦄ where
  -- No asset stands on the path twice.
  abbrev pub IsSimple : PathNode A → Type 0
  IsSimple (last a) = Unit {0}
  IsSimple (hop a cached n tail) = (is_on_path tail a ≡ false) × IsSimple tail

module _ {A : Type 0} where
  -- The stored depths count the nodes.
  abbrev pub IsCounted : PathNode A → Type 0
  IsCounted (last a) = Unit {0}
  IsCounted (hop a cached n tail) = (n ≡ depth tail + 1) × IsCounted tail

-- A cost does not depend on the cache of its own node.
chain_cost-hop :
    {A : Type 0} (db : Database A) (a : A) (c : Option ℤ) (p : PathNode A) (n : ℕ) (amount : ℤ)
    → chain_cost db (hop a c n p) amount ≡ chain_cost db (hop a none n p) amount
unfolding chain_cost
chain_cost-hop db a c p n amount = refl

module _ {A : Type 0} ⦃assets : Assets A⦄ (db : Database A) (q : Query A) (m : ℕ) where
  pub record IsNode (p : PathNode A) : Type 0 where
    pub simple : IsSimple p
    pub counted : IsCounted p
    pub within : depth p ≤ m
    pub ends : destination p ≡ q.destination_asset
    pub cached : IsCached db q.destination_amount p

  pub record IsGood (c : ComputedNode A) : Type 0 where
    pub node : IsNode c.path
    pub costs : chain_cost db c.path q.destination_amount ≡ ok c.cost

  -- A result stands for a good node whose source is one of the source assets.
  pub record IsAnswer (r : PaymentPath A) : Type 0 where
    pub found : ComputedNode A
    pub good : IsGood found
    pub same : r ≡ as_path found
    pub target : is_key (assets.text (asset found.path)) (map assets.text q.source_assets) ≡ true

  pub record IsSound (s : Search A) : Type 0 where
    pub query : s.query ≡ q
    pub max_length : s.max_length ≡ m
    pub targets : s.targets ≡ map assets.text q.source_assets
    pub queued : All IsGood s.queue
    pub found : All IsAnswer s.results
    pub bounded : length s.results ≤ max_results

  -- The new node of an extension, whatever its cache.
  hop-IsNode :
      (p : PathNode A) (a : A) (c : Option ℤ)
      → IsNode p
      → depth p < m
      → is_on_path p a ≡ false
      → IsCached db q.destination_amount (hop a c (depth p + 1) p)
      → IsNode (hop a c (depth p + 1) p)
  unfolding depth destination
  hop-IsNode p a c v h fresh k = record {
    simple = (fresh, v.simple);
    counted = (refl, v.counted);
    within = omega arith;
    ends = v.ends;
    cached = k;
  }

  -- The error plays no part.
  err-IsSound : (s : Search A) (e : Option Err) → IsSound s → IsSound (record s { err = e })
  err-IsSound s e v = record {
    query = v.query;
    max_length = v.max_length;
    targets = v.targets;
    queued = v.queued;
    found = v.found;
    bounded = v.bounded;
  }

  enqueue-IsSound :
      (s : Search A) (r : Result ℤ) (node : PathNode A)
      → IsSound s
      → ((c : ℤ) → r ≡ ok c → IsGood (record { path = node; cost = c }))
      → IsSound (enqueue db s (r, node))
  unfolding enqueue
  enqueue-IsSound s (err not_enough) node v h = err-IsSound s none v
  enqueue-IsSound s (err e) node v h = err-IsSound s (some _) v
  enqueue-IsSound s (ok c) node v h = record {
    query = v.query;
    max_length = v.max_length;
    targets = v.targets;
    queued = All-append IsGood s.queue _ v.queued (h c refl, tt);
    found = v.found;
    bounded = v.bounded;
  }

  priced :
      (s : Search A) (p : PathNode A) (a : A)
      → IsSound s
      → IsNode p
      → depth p < m
      → is_on_path p a ≡ false
      → IsSound (enqueue db s (cost db (hop a none (depth p + 1) p) q.destination_amount))
  priced s p a v w h fresh =
      let amount = q.destination_amount in
      let start : PathNode A = hop a none (depth p + 1) p in
      let right : IsCached db amount start = (w.cached, λ c e. cc) in
      let (c, shape) = cost_same db a none (depth p + 1) p amount in
      let same = cost-eq-chain_cost db start amount right in
      enqueue-IsSound s (cost db start amount).0 (cost db start amount).1 v λ d e. record {
        node =
            rw shape
              (hop-IsNode p a c w h fresh (rw shape at (cost-IsCached db start amount right)));
        costs = rw shape (chain_cost-hop db a c p _ amount ∙ sym same ∙ e);
      }

  -- The new path that `extendSearch` prices, queued or not.
  extended :
      (s : Search A) (p : PathNode A) (a : A)
      → IsSound s
      → IsNode p
      → depth p < m
      → is_on_path p a ≡ false
      → IsSound (enqueue db s (cost db (hop a none (depth p + 1) p) s.query.destination_amount))
  extended s p a v w h fresh =
      subst (λ z. IsSound (enqueue db s (cost db (hop a none (depth p + 1) p) z)))
        (ap (λ (r : Query A). r.destination_amount) (sym v.query)) (priced s p a v w h fresh)

  extend_each-IsSound :
      (p : PathNode A) (connected : List A) (s : Search A)
      → IsSound s
      → IsNode p
      → depth p < m
      → IsSound (extend_each db p connected s)
  extend_each-IsSound p [] s v w h = unfold extend_each in v
  extend_each-IsSound p (a ∷ connected) s v w h = elim (Option-cases s.err) [
    | inr (e, stopped) ↦ rw (extend_each-stop db p a connected s e stopped) v
    | inl going ↦
        elim (Bool-cases (is_on_path p a || depth p == s.max_length - 1 && not (is_target s a))) [
          | inl skip ↦
              rw (extend_each-skip db p a connected s going skip)
                (extend_each-IsSound p connected s v w h)
          | inr fresh ↦
              rw (extend_each-take db p a connected s going fresh)
                (extend_each-IsSound p connected _ (extended s p a v w h (or_false _ _ fresh)) w h)
        ]
  ]

  extend_search-IsSound :
      (p : PathNode A) (connected : Result (List A)) (s : Search A)
      → IsSound s
      → IsNode p
      → depth p < m
      → IsSound (extend_search db p connected s)
  unfolding extend_search
  extend_search-IsSound p (err e) s v w h = err-IsSound s (some e) v
  extend_search-IsSound p (ok connected) s v w h = extend_each-IsSound p connected s v w h

  -- The head of the queue is noted as a result if its asset is a target.
  noted :
      (cur : ComputedNode A) (s : Search A)
      → IsSound s
      → IsGood cur
      → length s.results < max_results
      → IsSound (
          if is_target s (asset cur.path)
          then record s { results = s.results ++ as_path cur ∷ [] }
          else s)
  unfolding is_target
  noted cur s v w h = elim (Bool-cases (is_key (assets.text (asset cur.path)) s.targets)) [
    | inr other ↦ rw other v
    | inl hit ↦
        let hit' = subst (λ t. is_key (assets.text (asset cur.path)) t ≡ true) v.targets hit in
        rw hit (record {
          query = v.query;
          max_length = v.max_length;
          targets = v.targets;
          queued = v.queued;
          found =
              All-append IsAnswer s.results _ v.found
                (record { found = cur; good = w; same = refl; target = hit' }, tt);
          bounded = omega (arith, length-append s.results (as_path cur ∷ []));
        })
  ]

  visit-IsSound :
      (cur : ComputedNode A) (s : Search A)
      → IsSound s
      → IsGood cur
      → length s.results < max_results
      → IsSound (visit db cur s)
  unfolding visit
  visit-IsSound cur s v w h =
      let sound = noted cur s v w h in
      elim (Bool-cases (depth cur.path == s.max_length)) [
        | inl full ↦ rw full sound
        | inr short ↦
            let below : depth cur.path < m =
              below_max (depth cur.path) s.max_length m w.node.within v.max_length short in
            rw short (extend_search-IsSound cur.path _ _ sound w.node below)
      ]

  pub run_once-IsSound :
      (queue : List (ComputedNode A)) (s : Search A)
      → queue ≡ s.queue
      → IsSound s
      → length s.results < max_results
      → IsSound (run_once db queue s)
  unfolding run_once
  run_once-IsSound [] s e v h = v
  run_once-IsSound (cur ∷ queue) s e v h =
      let queued : All IsGood (cur ∷ queue) = subst (All IsGood) (sym e) v.queued in
      visit-IsSound cur (record s { queue = queue })
        (record {
          query = v.query;
          max_length = v.max_length;
          targets = v.targets;
          queued = queued.1;
          found = v.found;
          bounded = v.bounded;
        })
        queued.0 h

  pub loop-IsSound : (fuel : ℕ) (s : Search A) → IsSound s → IsSound (loop db fuel s)
  loop-IsSound zero s v = unfold loop in v
  loop-IsSound (suc fuel) s v = elim (Bool-cases (has_more s)) [
    | inl more ↦
        rw (loop-more db fuel s more)
          (loop-IsSound fuel _ (run_once-IsSound s.queue s refl v (room_left s more)))
    | inr done ↦ rw (loop-done db fuel s done) v
  ]
