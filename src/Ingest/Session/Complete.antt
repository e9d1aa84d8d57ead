-- ===== src/Ingest/Session/Complete.antt =====
-- The loop over the ledgers ends, and leaves what `Atomic` says.
use mathlib.Core.Path.{subst}
use dfc_api.Base.{
  ◌≢◌, not, ◌&&◌, ◌||◌, ℕ, zero, suc, ◌+◌, ◌-◌, ◌^◌, ◌<◌, ◌≡◌, refl, sym, ap, ◌∙◌, Bool, true,
  false, Bool-cases, ◌⊎◌, inl, inr, List, [], ◌∷◌, ◌++◌, Option, some, if◌then◌else◌, ltb,
}
use dfc_api.Base.Int.{ℤ, pos, ltb_ℤ}
use dfc_api.Ingest.Outcome.{Outcome, database, done, failed, panicked}
use dfc_api.Ingest.Cursor.{
  Cursor, LedgerBundle, new_cursor, increment_lg, is_reverse, next_lg, loaded, complete,
  next_ledger,
}
use dfc_api.Ingest.Cursor.Iteration.{visited, visited_more, visited_end, up, down, visited_lem}
use dfc_api.Ingest.Session.{Row, begin, World, Config, ingest_ledger}
use dfc_api.Ingest.Session.Run.{Report, clear_ledger, ingest_one, finish, go_on, loop, run}
use dfc_api.Ingest.Session.Atomic.{
  ledger_of, Commits, nothing, Atomic, One, unchanged, written, failed≢done, panicked≢done,
  ingest_one-cases,
}

increment-choice :
    (b : Bool) (c d : Cursor) (x : Bool × Cursor)
    → x ≡ (if b then (false, c) else (true, d))
    → (x ≡ (false, c)) ⊎ (x ≡ (true, d))
increment-choice true c d x e = inl e
increment-choice false c d x e = inr e

increment-cases :
    (c : Cursor)
    → (increment_lg c ≡ (false, ledger_of c.first_ledger c.last_ledger (pos 0)))
      ⊎ (increment_lg c ≡ (true, ledger_of c.first_ledger c.last_ledger (next_lg c)))
unfolding increment_lg
increment-cases c =
    increment-choice
      ((not (is_reverse c) && ltb_ℤ c.last_ledger (next_lg c))
        || (is_reverse c && ltb_ℤ (next_lg c) c.last_ledger))
      (record c { lg = pos 0 }) (record c { lg = next_lg c }) (increment_lg c) refl

next-complete :
    (load : ℤ → Outcome LedgerBundle) (c next : Cursor)
    → increment_lg c ≡ (false, next)
    → next_ledger load c ≡ complete next
unfolding next_ledger
next-complete load c next e = rw e refl

next-loaded :
    (load : ℤ → Outcome LedgerBundle) (c next : Cursor)
    → increment_lg c ≡ (true, next)
    → next_ledger load c ≡ loaded (load next.lg) next
unfolding next_ledger
next-loaded load c next e = rw e refl

-- The ledgers of a range, in the order of the iteration.
abbrev pub range_of : ℕ → ℕ → List ℤ
range_of first last =
    if ltb last first then down (suc (first - last)) first else up (suc (last - first)) first

module _ (config : Config) (world : World) where
  -- What a loop from a cursor comes to.
  abbrev Loops : Cursor → List Row → List ℤ → Option Report → Type 0
  Loops c rows range o =
      (r' : Report) × (o ≡ some r') × Atomic config world c.first_ledger c.last_ledger rows range r'

  loop-complete :
      (fuel : ℕ) (c next : Cursor) (r : Report)
      → next_ledger world.load c ≡ complete next
      → loop (suc fuel) config world c r ≡ some (record r { outcome = finish config world })
  unfolding loop
  loop-complete fuel c next r e = rw (loop, e) refl

  loop-loaded :
      (fuel : ℕ) (c next : Cursor) (r : Report) (o : Outcome LedgerBundle)
      → next_ledger world.load c ≡ loaded o next
      → loop (suc fuel) config world c r ≡ elim o [
        | done bundle ↦
            let r' = ingest_one config world next bundle r in
            go_on r'.outcome r' (loop fuel config world next r')
        | failed e ↦ some (record r { outcome = failed e })
        | panicked ↦ some (record r { outcome = panicked })
      ]
  unfolding loop loaded
  loop-loaded fuel c next r (done bundle) e = rw (loop, e) refl
  loop-loaded fuel c next r (failed why) e = rw (loop, e) refl
  loop-loaded fuel c next r panicked e = rw (loop, e) refl

  -- A report that keeps the rows and has an error.
  stopped-Atomic :
      (c : Cursor) (rows : List Row) (range : List ℤ) (r : Report)
      → r.committed ≡ rows
      → r.outcome ≢ done tt
      → Atomic config world c.first_ledger c.last_ledger rows range r
  stopped-Atomic c rows range r e bad = record {
    ledgers = [];
    rest = range;
    commits = rw e (nothing rows);
    prefix = refl;
    whole = λ fine. absurd (bad fine);
  }

  -- One ledger more, before the others.
  written-Atomic :
      (next : Cursor) (rows mid kept new : List Row) (bundle : LedgerBundle) (range : List ℤ)
      (r : Report)
      → world.load next.lg ≡ done bundle
      → clear_ledger config world next rows ≡ done kept
      → ingest_ledger config world.refuses next bundle ≡ done new
      → mid ≡ kept ++ new
      → Atomic config world next.first_ledger next.last_ledger mid range r
      → Atomic config world next.first_ledger next.last_ledger rows (next.lg ∷ range) r
  written-Atomic next rows mid kept new bundle range r l k n changed a = record {
    ledgers = next.lg ∷ a.ledgers;
    rest = a.rest;
    commits = Commits.ledger rows kept new r.committed bundle next.lg a.ledgers l k n (
        subst
          (λ from.
            Commits config world next.first_ledger next.last_ledger from a.ledgers r.committed)
          changed a.commits);
    prefix = ap (λ ls. next.lg ∷ ls) a.prefix;
    whole = a.whole;
  }

  -- The report of a ledger after which the loop ends.
  stop_at :
      (next : Cursor) (range : List ℤ) (bundle : LedgerBundle) (r r' : Report)
      → r'.outcome ≢ done tt
      → world.load next.lg ≡ done bundle
      → One config world next bundle r r'
      → Atomic config world next.first_ledger next.last_ledger r.committed (next.lg ∷ range) r'
  stop_at next range bundle r r' bad l (unchanged same why) =
      stopped-Atomic next r.committed (next.lg ∷ range) r' same bad
  stop_at next range bundle r r' bad l (written kept new k n changed) =
      written-Atomic next r.committed r'.committed kept new bundle range r' l k n changed
        (stopped-Atomic next r'.committed range r' refl bad)

  carry_on :
      (next : Cursor) (rest : Report → Option Report) (range : List ℤ) (bundle : LedgerBundle)
      (r r' : Report) (o : Outcome (Unit {0}))
      → ((r'' : Report) → Loops next r''.committed range (rest r''))
      → world.load next.lg ≡ done bundle
      → One config world next bundle r r'
      → r'.outcome ≡ o
      → Loops next r.committed (next.lg ∷ range) (go_on o r' (rest r'))
  unfolding go_on
  carry_on next rest range bundle r r' (done tt) ih l (unchanged same bad) e = absurd (bad e)
  carry_on next rest range bundle r r' (done tt) ih l (written kept new k n changed) e =
      let (r'', found, a) = ih r' in
      (
        r'',
        found,
        written-Atomic next r.committed r'.committed kept new bundle range r'' l k n changed a,
      )
  carry_on next rest range bundle r r' (failed why) ih l one e =
      (r', refl, stop_at next range bundle r r' (failed≢done e) l one)
  carry_on next rest range bundle r r' panicked ih l one e =
      (r', refl, stop_at next range bundle r r' (panicked≢done e) l one)

  -- What the loop does on the ledger that it loads.
  after_load :
      (fuel : ℕ) (c next : Cursor) (r : Report) (range : List ℤ) (o : Outcome LedgerBundle)
      → ((r'' : Report) → Loops next r''.committed range (loop fuel config world next r''))
      → world.load next.lg ≡ o
      → next_ledger world.load c ≡ loaded o next
      → Loops next r.committed (next.lg ∷ range) (loop (suc fuel) config world c r)
  after_load fuel c next r range (failed why) ih l e =
      rw (loop-loaded fuel c next r (failed why) e) (
        record r { outcome = failed why },
        refl,
        stopped-Atomic next r.committed (next.lg ∷ range) (record r { outcome = failed why }) refl
            (failed≢done refl),
      )
  after_load fuel c next r range panicked ih l e = rw (loop-loaded fuel c next r panicked e) (
    record r { outcome = panicked },
    refl,
    stopped-Atomic next r.committed (next.lg ∷ range) (record r { outcome = panicked }) refl
        (panicked≢done refl),
  )
  after_load fuel c next r range (done bundle) ih l e =
      let r' : Report = ingest_one config world next bundle r in
      rw (loop-loaded fuel c next r (done bundle) e) (
        carry_on next (loop fuel config world next) range bundle r r' r'.outcome ih l
          (ingest_one-cases config world next bundle r) refl)

  loop_lem :
      (fuel : ℕ) (c : Cursor) (r : Report)
      → (visited fuel c).1 ≡ true
      → Loops c r.committed (visited fuel c).0 (loop fuel config world c r)
  loop_lem zero c r e = absurd (unfold visited in cc)
  loop_lem (suc fuel) c r e = elim (increment-cases c) [
    | inl stop ↦
        let next = ledger_of c.first_ledger c.last_ledger (pos 0) in
        let r' : Report = record r { outcome = finish config world } in
        rw
          (
            visited_end fuel c next stop,
            loop-complete fuel c next r (next-complete world.load c next stop),
          )
          (
            r',
            refl,
            record {
              ledgers = [];
              rest = [];
              commits = nothing r.committed;
              prefix = refl;
              whole = λ fine. refl;
            },
          )
    | inr more ↦
        let next = ledger_of c.first_ledger c.last_ledger (next_lg c) in
        let there = visited_more fuel c next more in
        rw there (
          after_load fuel c next r (visited fuel next).0 (world.load next.lg)
            (λ r''. loop_lem fuel next r'' (sym (ap (λ x. x.1) there) ∙ e)) refl
            (next-loaded world.load c next more))
  ]

  -- Between positive sequences below the largest int32, and with more calls than two and the distance
  -- between them, a run ends, whatever the databases do. The committed rows are those of the first
  -- ledgers of the range, each of them cleared and ingested as a whole, in the order of the range; if
  -- the run has no error and no panic, those are all of its ledgers.
  pub run_lem :
      (first last fuel : ℕ) (rows : List Row)
      → 0 < first
      → 0 < last
      → first < 2 ^ 31 - 1
      → last < 2 ^ 31 - 1
      → 1 + ((first - last) + (last - first)) < fuel
      → (r : Report) × (run fuel config world (some (new_cursor (pos first) (pos last))) rows
          ≡ some r)
        × Atomic config world (pos first) (pos last) rows (range_of first last) r
  unfolding run new_cursor
  run_lem first last fuel rows hf hl bf bl enough =
      let c = new_cursor (pos first) (pos last) in
      let r : Report = record { committed = rows; ingested = 0; outcome = done tt } in
      let there = visited_lem first last fuel hf hl bf bl enough in
      elim (Bool-cases (world.refuses begin)) [
        | inl refused ↦ rw refused (
          record { committed = rows; ingested = 0; outcome = failed database },
          refl,
          stopped-Atomic c rows (range_of first last)
              (record { committed = rows; ingested = 0; outcome = failed database }) refl
              (failed≢done refl),
        )
        | inr begun ↦ rw begun (
            subst (λ range. Loops c rows range (loop fuel config world c r)) (ap (λ x. x.0) there)
              (loop_lem fuel c r (ap (λ x. x.1) there)))
      ]
