-- ===== src/SimplePath/Search/Termination.antt =====
-- The search ends: with `b` connected assets at most for each asset, it takes no more rounds than
-- the tree of that branching and of the allowed depth has nodes.
use native.Mathlib.Nat.{mul-le-mul_right}
use dfc_api.Base.{
  ℕ, zero, suc, ◌+◌, ◌-◌, ◌*◌, ◌≤◌, ◌<◌, ◌≡◌, refl, true, false, not, ◌&&◌, ◌||◌, List, [], ◌∷◌,
  ◌++◌, none, arith, ◌==◌, if◌then◌else◌, Bool-cases, Option-cases, inl, inr, length, All,
}
use dfc_api.Base.Int.{ℤ}
use dfc_api.SimplePath.Result.{Result, ok, err, not_enough}
use dfc_api.SimplePath.Path.{Assets, Database, PathNode, hop, asset, depth, is_on_path, cost}
use dfc_api.SimplePath.Path.Cost.{cost_same}
use dfc_api.SimplePath.Search.{
  Query, ComputedNode, Search, as_path, has_more, is_target, enqueue, extend_each, extend_search,
  visit, run_once, loop,
}
use dfc_api.SimplePath.Search.Steps.{
  below_max, loop-more, loop-done, extend_each-stop, extend_each-skip, extend_each-take,
}
use dfc_api.SimplePath.Search.Sound.{IsSound, IsGood, run_once-IsSound}
use dfc_api.SimplePath.Search.Steps.{room_left}

-- The nodes of a tree with `k` levels below its root, where each node has `b` children.
unfoldable pub nodes : ℕ → ℕ → ℕ
nodes b zero = 1
nodes b (suc k) = 1 + b * nodes b k

-- What the entries of the queue can still give rise to.
unfoldable pub weight : {A : Type 0} → ℕ → ℕ → List (ComputedNode A) → ℕ
weight b m [] = 0
weight b m (c ∷ queue) = nodes b (m - depth c.path) + weight b m queue

weight-append :
    {A : Type 0} (b m : ℕ) (xs ys : List (ComputedNode A))
    → weight b m (xs ++ ys) ≡ weight b m xs + weight b m ys
unfolding weight
weight-append b m [] ys = omega arith
weight-append b m (x ∷ xs) ys = omega (arith, weight-append b m xs ys)

nodes_pos : (b k : ℕ) → 0 < nodes b k
unfolding nodes
nodes_pos b zero = omega arith
nodes_pos b (suc k) = omega arith

nodes_step : (b m d : ℕ) → d < m → nodes b (m - d) ≡ 1 + b * nodes b (m - (d + 1))
nodes_step b m d h = let e : m - d ≡ suc (m - (d + 1)) = omega arith in rw e (unfold nodes in refl)

entry_left : {A : Type 0} (s : Search A) → has_more s ≡ true → 0 < length s.queue
unfolding has_more
entry_left s h = ground arith

empty_ends : {A : Type 0} (s : Search A) → length s.queue ≡ 0 → has_more s ≡ false
unfolding has_more
empty_ends s h = ground arith

module _ {A : Type 0} ⦃assets : Assets A⦄ (db : Database A) (b m : ℕ) where
  weightless : (queue : List (ComputedNode A)) → weight b m queue ≡ 0 → length queue ≡ 0
  unfolding weight
  weightless [] h = refl
  weightless (c ∷ queue) h = absurd (omega (arith, nodes_pos b (m - depth c.path)))

  weight-enqueue :
      (s : Search A) (r : Result ℤ) (node : PathNode A)
      → weight b m (enqueue db s (r, node)).queue ≤ weight b m s.queue + nodes b (m - depth node)
  unfolding enqueue
  weight-enqueue s (ok c) node =
      unfold weight in
      omega (arith, weight-append b m s.queue (record { path = node; cost = c } ∷ []))
  weight-enqueue s (err not_enough) node = omega arith
  weight-enqueue s (err e) node = omega arith

  weight-extended :
      (s : Search A) (p : PathNode A) (a : A) (amount : ℤ)
      → weight b m (enqueue db s (cost db (hop a none (depth p + 1) p) amount)).queue
        ≤ weight b m s.queue + nodes b (m - (depth p + 1))
  weight-extended s p a amount =
      let start : PathNode A = hop a none (depth p + 1) p in
      let (c, shape) = cost_same db a none (depth p + 1) p amount in
      let deep : depth (cost db start amount).1 ≡ depth p + 1 = rw shape (unfold depth in refl) in
      rw deep at (weight-enqueue s (cost db start amount).0 (cost db start amount).1)

  weight-extend_each :
      (p : PathNode A) (connected : List A) (s : Search A)
      → weight b m (extend_each db p connected s).queue
        ≤ weight b m s.queue + length connected * nodes b (m - (depth p + 1))
  weight-extend_each p [] s = unfold extend_each in omega arith
  weight-extend_each p (a ∷ connected) s = elim (Option-cases s.err) [
    | inr (e, stopped) ↦ rw (extend_each-stop db p a connected s e stopped) (omega arith)
    | inl going ↦
        elim (Bool-cases (is_on_path p a || depth p == s.max_length - 1 && not (is_target s a))) [
          | inl skip ↦
              rw (extend_each-skip db p a connected s going skip)
                (omega (arith, weight-extend_each p connected s))
          | inr fresh ↦ rw (extend_each-take db p a connected s going fresh) (
              omega (
                arith,
                weight-extended s p a s.query.destination_amount,
                weight-extend_each p connected (
                    enqueue db s (cost db (hop a none (depth p + 1) p) s.query.destination_amount)),
              ))
        ]
  ]

  -- No asset is connected to more than `b` others.
  abbrev pub IsBranching : Type 0
  IsBranching = (a : A) (l : List A) → db.connected a ≡ ok l → length l ≤ b

  weight-extend_search :
      (p : PathNode A) (connected : Result (List A)) (s : Search A)
      → ((l : List A) → connected ≡ ok l → length l ≤ b)
      → weight b m (extend_search db p connected s).queue
        ≤ weight b m s.queue + b * nodes b (m - (depth p + 1))
  unfolding extend_search
  weight-extend_search p (err e) s h = omega arith
  weight-extend_search p (ok l) s h =
      omega
        (arith, weight-extend_each p l s, mul-le-mul_right (nodes b (m - (depth p + 1))) (h l refl))

  -- The search with the head noted as a result.
  abbrev noted : ComputedNode A → Search A → Search A
  noted cur s =
      if is_target s (asset cur.path)
      then record s { results = s.results ++ as_path cur ∷ [] }
      else s

  same_queue :
      (cur : ComputedNode A) (s : Search A) → weight b m (noted cur s).queue ≡ weight b m s.queue
  same_queue cur s = ground arith

  weight-visit :
      (cur : ComputedNode A) (s : Search A)
      → IsBranching
      → depth cur.path ≤ m
      → s.max_length ≡ m
      → weight b m (visit db cur s).queue < weight b m s.queue + nodes b (m - depth cur.path)
  unfolding visit
  weight-visit cur s h l e = elim (Bool-cases (depth cur.path == s.max_length)) [
    | inl full ↦ rw full (omega (arith, same_queue cur s, nodes_pos b (m - depth cur.path)))
    | inr short ↦ rw short (
        omega (
          arith,
          same_queue cur s,
          weight-extend_search cur.path (db.connected (asset cur.path)) (noted cur s)
              (h (asset cur.path)),
          nodes_step b m (depth cur.path) (below_max (depth cur.path) s.max_length m l e short),
        ))
  ]

  weight-run_once :
      (queue : List (ComputedNode A)) (s : Search A)
      → queue ≡ s.queue
      → IsBranching
      → All (λ c. depth c.path ≤ m) queue
      → s.max_length ≡ m
      → 0 < length queue
      → weight b m (run_once db queue s).queue < weight b m s.queue
  unfolding run_once weight
  weight-run_once [] s e h l k n = absurd (omega arith)
  weight-run_once (cur ∷ queue) s e h l k n =
      rw (← e) (omega (arith, weight-visit cur (record s { queue = queue }) h l.0 k))

  good_depths :
      (q : Query A) (queue : List (ComputedNode A))
      → All (IsGood db q m) queue
      → All (λ c. depth c.path ≤ m) queue
  good_depths q [] g = tt
  good_depths q (c ∷ queue) g = (g.0.node.within, good_depths q queue g.1)

  -- With as much fuel as the queue has weight, the loop ends by its own test.
  pub loop-ends :
      (q : Query A) (fuel : ℕ) (s : Search A)
      → IsBranching
      → IsSound db q m s
      → weight b m s.queue ≤ fuel
      → has_more (loop db fuel s) ≡ false
  loop-ends q zero s h v w = unfold loop in empty_ends s (weightless s.queue (omega arith))
  loop-ends q (suc fuel) s h v w = elim (Bool-cases (has_more s)) [
    | inr done ↦ rw (loop-done db fuel s done) done
    | inl more ↦ rw (loop-more db fuel s more) (
        loop-ends q fuel (run_once db s.queue s) h
          (run_once-IsSound db q m s.queue s refl v (room_left s more))
          (omega (
            arith,
            w,
            weight-run_once s.queue s refl h (good_depths q s.queue v.queued) v.max_length
                (entry_left s more),
          )))
  ]
