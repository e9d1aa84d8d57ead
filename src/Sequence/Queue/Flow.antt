-- ===== src/Sequence/Queue/Flow.antt =====
-- A submission from its `Push` to the `Update` that answers it.
use dfc_api.Base.{
  ℕ, ◌+◌, ◌≤◌, ◌<◌, ◌≡◌, refl, ap, not, ◌≢◌, Bool, true, false, ◌&&◌, Option, none, arith, leb,
  ◌==◌, count, of_bool,
}
use dfc_api.Sequence.Item.{Item, Signal, Err}
use dfc_api.Sequence.Heap.Laws.{IsOrdered, push-IsOrdered, count-push}
use dfc_api.Sequence.Queue.{Queue, push, verdict, raise, update}
use dfc_api.Sequence.Queue.Update.{due, update-Serves}

abbrev pub is_go : Option Err → Bool
is_go none = true
is_go _ = false

-- The signal that lets the submission on this channel go ahead.
abbrev pub go_ahead : ℕ → Signal → Bool
go_ahead chan s = s.chan == chan && is_go s.err

-- The signal that refuses the submission on this channel.
abbrev pub refusal : ℕ → Signal → Bool
refusal chan s = s.chan == chan && not (is_go s.err)

module _ (now current sequence chan : ℕ) (q : Queue) (o : IsOrdered q.queue) where
  pushed : IsOrdered (push sequence chan q).queue
  unfolding push
  pushed = push-IsOrdered _ q.queue o

  abbrev next : ℕ
  next = raise q.next_sequence current

  entry :
      (p : Item → Bool)
      → count p (push sequence chan q).queue
        ≡ of_bool (p (record { sequence = sequence; chan = chan })) + count p q.queue
  unfolding push
  entry p = count-push p _ q.queue

  kept : (push sequence chan q).next_sequence ≡ q.next_sequence
  unfolding push
  kept = refl

  served :
      sequence ≤ next
      → (p : Signal → Bool)
      → count p (update now current (push sequence chan q)).1
        ≡ of_bool (p (verdict next (record { sequence = sequence; chan = chan })))
          + count (λ y. leb y.sequence next && p (verdict next y)) q.queue
  served h p =
      let here : leb sequence next ≡ true = ground arith in
      let same : raise (push sequence chan q).next_sequence current ≡ next =
        ap (λ n. raise n current) kept in
      let waiting : due next (push sequence chan q).queue ≢ 0 =
        λ e. absurd (ground (arith, entry (λ y. leb y.sequence next))) in
      let answers = (update-Serves now current (push sequence chan q) pushed (rw same waiting)).0 in
      rw (answers.signalled p, same, entry (λ y. leb y.sequence next && p (verdict next y)), here)

  -- A submission whose sequence is the next one of the account may go ahead.
  pub go_ahead-update-push :
      sequence ≡ next → 1 ≤ count (go_ahead chan) (update now current (push sequence chan q)).1
  unfolding verdict
  go_ahead-update-push h = ground (arith, served (omega arith) (go_ahead chan))

  -- A submission whose sequence has passed is refused.
  pub refusal-update-push :
      sequence < next → 1 ≤ count (refusal chan) (update now current (push sequence chan q)).1
  unfolding verdict
  refusal-update-push h = ground (arith, served (omega arith) (refusal chan))
