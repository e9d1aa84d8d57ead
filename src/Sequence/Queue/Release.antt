-- ===== src/Sequence/Queue/Release.antt =====
-- The two loops of `Update`, against what they do to the queue as a bag of entries.
use dfc_api.Base.{
  ℕ, zero, suc, ◌≤◌, ◌<◌, ◌≡◌, refl, inl, inr, Bool, true, false, ◌&&◌, List, [], ◌∷◌, arith, ltb,
  leb, Bool-cases, length, count, sym,
}
use dfc_api.Sequence.Item.{Item, Signal}
use dfc_api.Sequence.Heap.{at, pop_last}
use dfc_api.Sequence.Heap.Laws.{IsOrdered, below, head_least, pop-Popped}
use dfc_api.Sequence.Queue.{verdict, refuse, release, drain}

-- Entries past `next` are left, all others get their verdict, each as often as it was queued.
pub record Released (next : ℕ) (a : List Item) (r : List Item × List Signal) : Type 0 where
  pub left : (p : Item → Bool) → count p r.0 ≡ count (λ y. ltb next y.sequence && p y) a
  pub signalled :
      (p : Signal → Bool) → count p r.1 ≡ count (λ y. leb y.sequence next && p (verdict next y)) a
  pub ordered : IsOrdered r.0

past_all :
    (k next : ℕ) (a : List Item) (p : Item → Bool)
    → next < k
    → count (below k) a ≡ 0
    → count (λ y. ltb next y.sequence && p y) a ≡ count p a
past_all k next [] p h e = refl
past_all k next (x ∷ a) p h e = ground (arith, past_all k next a p h (ground arith))

none_due :
    (k next : ℕ) (a : List Item) (p : Item → Bool)
    → next < k
    → count (below k) a ≡ 0
    → count (λ y. leb y.sequence next && p y) a ≡ 0
none_due k next [] p h e = refl
none_due k next (x ∷ a) p h e = ground (arith, none_due k next a p h (ground arith))

release-stop :
    (fuel next : ℕ) (x : Item) (a : List Item)
    → ltb next x.sequence ≡ true
    → release (suc fuel) next (x ∷ a) ≡ (x ∷ a, [])
unfolding release
release-stop fuel next x a h = rw (h, release)

release-pop :
    (fuel next : ℕ) (x : Item) (a : List Item)
    → ltb next x.sequence ≡ false
    → release (suc fuel) next (x ∷ a) ≡ (
      (release fuel next (pop_last (length a) (x ∷ a)).1).0,
      verdict next x ∷ (release fuel next (pop_last (length a) (x ∷ a)).1).1,
    )
unfolding release
release-pop fuel next x a h = rw (h, release)

pub release-Released :
    (fuel next : ℕ) (a : List Item)
    → length a ≤ fuel
    → IsOrdered a
    → Released next a (release fuel next a)
unfolding at
release-Released zero next [] h o =
    unfold release in record { left = λ p. refl; signalled = λ p. refl; ordered = o }
release-Released zero next (x ∷ a) h o = absurd (omega arith)
release-Released (suc fuel) next [] h o =
    unfold release in record { left = λ p. refl; signalled = λ p. refl; ordered = o }
release-Released (suc fuel) next (x ∷ a) h o = elim (Bool-cases (ltb next x.sequence)) [
  | inl past ↦
      let later : next < x.sequence = ground arith in
      rw (release-stop fuel next x a past) (record {
        left = λ p. sym (past_all x.sequence next (x ∷ a) p later (head_least (x ∷ a) o));
        signalled = λ p. sym (
            none_due x.sequence next (x ∷ a) (λ y. p (verdict next y)) later
              (head_least (x ∷ a) o));
        ordered = o;
      })
  | inr due ↦
      let popped = pop-Popped x a o in
      let rest =
        release-Released fuel next (pop_last (length a) (x ∷ a)).1 (omega (arith, popped.size))
          popped.ordered in
      rw (release-pop fuel next x a due) (record {
        left = λ p.
            ground
              (arith, rest.left p, popped.head, popped.counts (λ y. ltb next y.sequence && p y));
        signalled = λ p. ground (
          arith,
          rest.signalled p,
          popped.head,
          popped.counts (λ y. leb y.sequence next && p (verdict next y)),
        );
        ordered = rest.ordered;
      })
]

-- Every entry of a queue that is cleared is refused, each as often as it was queued.
pub count-drain :
    (p : Signal → Bool) (fuel : ℕ) (a : List Item)
    → length a ≤ fuel
    → IsOrdered a
    → count p (drain fuel a) ≡ count (λ y. p (refuse y)) a
unfolding drain
count-drain p zero [] h o = refl
count-drain p zero (x ∷ a) h o = absurd (omega arith)
count-drain p (suc fuel) [] h o = refl
count-drain p (suc fuel) (x ∷ a) h o =
    let popped = pop-Popped x a o in
    omega (
      arith,
      popped.counts (λ y. p (refuse y)),
      count-drain p fuel (pop_last (length a) (x ∷ a)).1 (omega (arith, popped.size))
          popped.ordered,
    )
