-- ===== src/Sequence/Manager/Bounds.antt =====
-- The manager under any sequence of calls.
use dfc_api.Base.{
  ℕ, ◌∙◌, ◌≤◌, ◌<◌, ◌≡◌, refl, ap, true, List, [], ◌∷◌, String, arith, leb, Bool-cases, inl, inr,
}
use dfc_api.Base.Map.{total, lookup, total}
use dfc_api.Sequence.Item.{Signal}
use dfc_api.Sequence.Manager.{Manager, new_manager, size, push, update_address, update}
use dfc_api.Sequence.Manager.Waiting.{IsValid, size-eq-waiting, push_full, push_room, size-push}
use dfc_api.Sequence.Manager.Validity.{push-IsValid}
use dfc_api.Sequence.Manager.Answers.{
  update_address_lem, max_size-update_address, update-IsValid, update_conserves,
}

-- A call of the manager by a client or by the tick.
pub data Step : Manager → Manager → Type 0 where
  pushed :
      (now : ℕ) (address : String) (sequence chan : ℕ) (m : Manager)
      → Step m (push now address sequence chan m).0
  updated : (now : ℕ) (updates : List (String × ℕ)) (m : Manager) → Step m (update now updates m).0

pub data Reach (m : Manager) : Manager → Type 0 where
  here : Reach m m
  next : {n k : Manager} → Reach m n → Step n k → Reach m k

update-max_size :
    (now : ℕ) (updates : List (String × ℕ)) (m : Manager)
    → IsValid m
    → (update now updates m).0.max_size ≡ m.max_size
unfolding update
update-max_size now [] m v = refl
update-max_size now ((address, sequence) ∷ updates) m v =
    update-max_size now updates (update_address now address sequence m).0
      (update_address_lem now address sequence m v).0
    ∙ max_size-update_address now address sequence m

-- The invariant of every state that the calls reach.
pub record IsBounded (m : Manager) : Type 0 where
  pub valid : IsValid m
  pub fits : size m ≤ m.max_size

Step-IsBounded : {m n : Manager} → Step m n → IsBounded m → IsBounded n
Step-IsBounded (pushed now address sequence chan m) b =
    elim (Bool-cases (leb m.max_size (size m))) [
      | inl full ↦ rw (push_full now address sequence chan m (ground arith)) b
      | inr room ↦ record {
        valid = push-IsValid now address sequence chan m b.valid;
        fits =
            let room' : size m < m.max_size = ground arith in
            omega (
              arith,
              (size-push now address sequence chan m room').0,
              ap (λ (r : Manager × List Signal). r.0.max_size)
                  (push_room now address sequence chan m room'),
            );
      }
    ]
Step-IsBounded (updated now updates m) b = record {
  valid = update-IsValid now updates m b.valid;
  fits = omega (
    arith,
    b.fits,
    size-eq-waiting m,
    size-eq-waiting (update now updates m).0,
    update_conserves (λ c. true) now updates m b.valid,
    update-max_size now updates m b.valid,
  );
}

-- Whatever calls are made of a new manager, it never buffers more than its size allows.
pub Reach-IsBounded : {m n : Manager} → IsBounded m → Reach m n → IsBounded n
Reach-IsBounded b here = b
Reach-IsBounded b (next r s) = Step-IsBounded s (Reach-IsBounded b r)

pub new_manager-IsBounded : IsBounded new_manager
unfolding new_manager size total
new_manager-IsBounded = record {
  valid = record { distinct = tt; ordered = λ k q e. absurd (unfold lookup in cc e) };
  fits = omega arith;
}
