-- ===== src/Sequence/Queue/Update.antt =====
-- `Queue.Update` as a whole: what is sent, what stays, and when.
use dfc_api.Base.{
  ℕ, ◌+◌, ◌-◌, ◌^◌, ◌≤◌, ◌<◌, ◌≡◌, ◌≢◌, refl, ◌∙◌, inl, inr, Bool, true, false, ◌&&◌, List, [], ◌∷◌,
  arith, ltb, leb, Bool-cases, length, count, max,
}
use dfc_api.Sequence.Item.{Item, Signal}
use dfc_api.Sequence.Heap.Laws.{IsOrdered}
use dfc_api.Sequence.Queue.{Queue, verdict, refuse, release, drain, raise, is_empty, update}
use dfc_api.Sequence.Queue.Release.{Released, release-Released, count-drain}

-- The entries that `next` releases.
abbrev pub due : ℕ → List Item → ℕ
due next a = count (λ y. leb y.sequence next) a

-- What `Update` has to do with the queue `q` and the number `next`, as bags of entries and signals.
pub record Serves (q : Queue) (next : ℕ) (r : Queue × List Signal) : Type 0 where
  pub left : (p : Item → Bool) → count p r.0.queue ≡ count (λ y. ltb next y.sequence && p y) q.queue
  pub signalled :
      (p : Signal → Bool)
      → count p r.1 ≡ count (λ y. leb y.sequence next && p (verdict next y)) q.queue

empty_iff : (s : List Signal) → is_empty s ≡ true → count (λ y. true) s ≡ 0
empty_iff [] h = refl
empty_iff (x ∷ s) h = cc

nonempty : (s : List Signal) → is_empty s ≡ false → count (λ y. true) s ≢ 0
nonempty [] h e = cc
nonempty (x ∷ s) h e = absurd (omega arith)

due-and : (next : ℕ) (a : List Item) → count (λ y. leb y.sequence next && true) a ≡ due next a
due-and next [] = refl
due-and next (x ∷ a) = ground (arith, due-and next a)

not_due :
    (next : ℕ) (a : List Item) (p : Item → Bool)
    → due next a ≡ 0
    → count (λ y. ltb next y.sequence && p y) a ≡ count p a
not_due next [] p h = refl
not_due next (x ∷ a) p h = ground (arith, not_due next a p (ground arith))

-- An entry is left or answered, on its own channel.
one_each :
    (next : ℕ) (p : ℕ → Bool) (a : List Item)
    → count (λ y. leb y.sequence next && p (verdict next y).chan) a
        + count (λ y. ltb next y.sequence && p y.chan) a
      ≡ count (λ y. p y.chan) a
unfolding verdict
one_each next p [] = omega arith
one_each next p (x ∷ a) = ground (arith, one_each next p a)

module _ (now sequence : ℕ) (q : Queue) (o : IsOrdered q.queue) where
  abbrev next : ℕ
  next = raise q.next_sequence sequence

  abbrev out : List Item × List Signal
  out = release (length q.queue) next q.queue

  released : Released next q.queue out
  released = release-Released (length q.queue) next q.queue (omega arith) o

  -- `Update` raises the number past the sequence, and never lowers it below the top of uint64.
  pub next_sequence-update :
      sequence + 1 < 2 ^ 64
      → (update now sequence q).0.next_sequence ≡ max q.next_sequence (sequence + 1)
  unfolding update
  next_sequence-update h = ground arith

  settled :
      is_empty out.1 ≡ false
      → update now sequence q
        ≡ (record q { next_sequence = next; queue = out.0; last_active_at = now }, out.1)
  unfolding update
  settled h = ground arith

  idle :
      is_empty out.1 ≡ true
      → (now - q.last_active_at) ≤ q.timeout
      → update now sequence q ≡ (record q { next_sequence = next; queue = out.0 }, [])
  unfolding update
  idle h k = ground arith

  expired :
      is_empty out.1 ≡ true
      → q.timeout < now - q.last_active_at
      → update now sequence q
        ≡ (record q { next_sequence = next; queue = [] }, drain (length out.0) out.0)
  unfolding update
  expired h k = ground arith

  due-signals : due next q.queue ≡ count (λ y. true) out.1
  due-signals = omega (arith, released.signalled (λ y. true), due-and next q.queue)

  some_sent : due next q.queue ≢ 0 → is_empty out.1 ≡ false
  some_sent h = elim (Bool-cases (is_empty out.1)) [
    | inl e ↦ absurd (h (omega (arith, due-signals, empty_iff out.1 e)))
    | inr e ↦ e
  ]

  none_sent : due next q.queue ≡ 0 → is_empty out.1 ≡ true
  none_sent h = elim (Bool-cases (is_empty out.1)) [
    | inl e ↦ e
    | inr e ↦ absurd (nonempty out.1 e (omega (arith, due-signals)))
  ]

  -- Where an entry is due, exactly the due ones are answered, exactly the others stay, and the
  -- queue counts as active.
  pub update-Serves :
      due next q.queue ≢ 0
      → Serves q next (update now sequence q) × ((update now sequence q).0.last_active_at ≡ now)
  update-Serves h =
      rw (settled (some_sent h))
        (record { left = released.left; signalled = released.signalled }, refl)

  -- Where none is due and the queue is not too old, nothing is sent and nothing leaves.
  pub update_waits :
      due next q.queue ≡ 0
      → now - q.last_active_at ≤ q.timeout
      → ((update now sequence q).1 ≡ [])
        × ((p : Item → Bool) → count p (update now sequence q).0.queue ≡ count p q.queue)
        × ((update now sequence q).0.last_active_at ≡ q.last_active_at)
  update_waits h k =
      rw (idle (none_sent h) k) (refl, (λ p. released.left p ∙ not_due next q.queue p h), refl)

  -- Where none is due and the queue is too old, it is cleared and every entry is refused.
  pub update_clears :
      due next q.queue ≡ 0
      → q.timeout < now - q.last_active_at
      → ((update now sequence q).0.queue ≡ [])
        × ((p : Signal → Bool)
            → count p (update now sequence q).1 ≡ count (λ y. p (refuse y)) q.queue)
  update_clears h k = rw (expired (none_sent h) k) (
    refl,
    λ p.
        count-drain p (length out.0) out.0 (omega arith) released.ordered
        ∙ released.left (λ y. p (refuse y))
        ∙ not_due next q.queue (λ y. p (refuse y)) h,
  )

  none_left :
      is_empty out.1 ≡ true
      → (p : ℕ → Bool)
      → count (λ y. ltb next y.sequence && p y.chan) q.queue ≡ count (λ y. p y.chan) q.queue
  none_left quiet p =
      not_due next q.queue (λ y. p y.chan) (omega (arith, due-signals, empty_iff out.1 quiet))

  -- Whatever the branch: each channel is sent as many signals as it has entries that leave.
  pub update_answers :
      (p : ℕ → Bool)
      → count (λ s. p s.chan) (update now sequence q).1
          + count (λ y. p y.chan) (update now sequence q).0.queue
        ≡ count (λ y. p y.chan) q.queue
  unfolding refuse
  update_answers p =
      let both = one_each next p q.queue in
      elim (Bool-cases (is_empty out.1)) [
        | inr sent ↦
            rw (settled sent)
              (omega (arith, released.left (λ y. p y.chan), released.signalled (λ s. p s.chan)))
        | inl quiet ↦ elim (Bool-cases (ltb q.timeout (now - q.last_active_at))) [
          | inl old ↦ rw (expired quiet (ground arith)) (
              omega (
                arith,
                none_left quiet p,
                count-drain (λ s. p s.chan) (length out.0) out.0 (omega arith) released.ordered,
                released.left (λ y. p y.chan),
              ))
          | inr young ↦
              rw (idle quiet (ground arith))
                (omega (arith, none_left quiet p, released.left (λ y. p y.chan)))
        ]
      ]

  pub update-IsOrdered : IsOrdered (update now sequence q).0.queue
  update-IsOrdered = elim (Bool-cases (is_empty out.1)) [
    | inr sent ↦ rw (settled sent) released.ordered
    | inl quiet ↦ elim (Bool-cases (ltb q.timeout (now - q.last_active_at))) [
      | inl old ↦ rw (expired quiet (ground arith)) (λ c h k. absurd (omega arith))
      | inr young ↦ rw (idle quiet (ground arith)) released.ordered
    ]
  ]
