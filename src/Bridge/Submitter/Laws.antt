-- ===== src/Bridge/Submitter/Laws.antt =====
-- The sequence numbers of the transactions that one account sends.
use dfc_api.Base.{
  ℕ, suc, ◌+◌, ◌-◌, ◌%◌, ◌^◌, ◌≤◌, ◌<◌, ◌≡◌, refl, ap, ◌∙◌, Bool, true, false, Bool-cases, inl, inr,
  List, [], ◌∷◌, Option, none, some, String, length, All, arith,
}
use dfc_api.Base.Map.{lookup, insert, lookup-insert}
use dfc_api.Bridge.Submitter.{
  Account, Status, SentTransaction, Submitter, Answers, Submitted, applied, unreachable, rejected,
  load_account, with_status, set_sequence, resync, settle, send, send_account, send_loaded,
  sign_and_submit,
}
use package.text.Mathlib.TextEquality.{eq_iff}

-- The sequences of the transactions, the latest first, fall strictly, from `n` at most.
abbrev pub Falls : ℕ → List SentTransaction → Type 0
Falls n [] = Unit
Falls n (t ∷ ts) = (0 < t.sequence) × (t.sequence ≤ n) × Falls (t.sequence - 1) ts

-- The network does not complain of a sequence number.
abbrev pub NoBadSeq : Answers → Type 0
NoBadSeq o = (bad : Bool) → o.submission ≡ rejected bad → bad ≡ false

Falls-le : (n m : ℕ) (ts : List SentTransaction) → n ≤ m → Falls n ts → Falls m ts
Falls-le n m [] h f = tt
Falls-le n m (t ∷ ts) h f = (f.0, omega (arith, f.1), f.2)

Falls-with_status :
    (n : ℕ) (status : Status) (ts : List SentTransaction)
    → Falls n ts
    → Falls n (with_status status ts)
unfolding with_status
Falls-with_status n status [] f = tt
Falls-with_status n status (t ∷ ts) f = f

-- An account that has counted up to `n`, and whose transactions fall from there.
abbrev pub Counts : String → ℕ → Submitter → Type 0
Counts seed n s =
    (account : Account) × (lookup seed s.accounts ≡ some account)
    × (account.sequence_number ≡ n)
    × Falls n s.sent

settle-Counts :
    (seed : String) (account : Account) (o : Answers) (a : Submitted) (n : ℕ) (s : Submitter)
    → ((bad : Bool) → a ≡ rejected bad → bad ≡ false)
    → Counts seed n s
    → Counts seed n (settle seed account o a s).0
unfolding settle
settle-Counts seed account o unreachable n s good c = c
settle-Counts seed account o applied n s good (b, here, same, f) = elim (Bool-cases o.updated) [
  | inl stored ↦ rw stored (b, here, same, Falls-with_status n Status.success s.sent f)
  | inr lost ↦ rw lost (b, here, same, f)
]
settle-Counts seed account o (rejected true) n s good c = absurd (let e = good true refl in cc)
settle-Counts seed account o (rejected false) n s good (b, here, same, f) =
    elim (Bool-cases o.updated) [
      | inl stored ↦
          rw stored (unfold resync in (b, here, same, Falls-with_status n Status.failure s.sent f))
      | inr lost ↦ rw lost (b, here, same, f)
    ]

lookup-inserted :
    (seed : String) (a : Account) (t : List (String × Account))
    → lookup seed (insert seed a t) ≡ some a
lookup-inserted seed a t = ground (arith, lookup-insert seed seed a t, eq_iff seed seed)

send-Counts :
    (seed : String) (account : Account) (o : Answers) (n : ℕ) (s : Submitter)
    → suc n < 2 ^ 64
    → NoBadSeq o
    → account.sequence_number ≡ n
    → Falls n s.sent
    → Counts seed (suc n) (send seed account o s).0
unfolding send set_sequence
send-Counts seed account o n s small good same f =
    let m = suc account.sequence_number % 2 ^ 64 in
    let next : m ≡ suc n = omega arith in
    let after : Account = record account { sequence_number = m } in
    let counted : List (String × Account) = insert seed after s.accounts in
    let found = lookup-inserted seed after s.accounts in
    elim (Bool-cases o.encoded) [
      | inr raw ↦ rw raw (after, found, next, Falls-le n (suc n) s.sent (omega arith) f)
      | inl coded ↦ elim (Bool-cases o.inserted) [
        | inr lost ↦
            rw (coded, lost) (after, found, next, Falls-le n (suc n) s.sent (omega arith) f)
        | inl stored ↦
            rw (coded, stored)
              (settle-Counts seed after o o.submission (suc n) _ good (
                after,
                found,
                next,
                (omega arith, omega arith, Falls-le n (m - 1) s.sent (omega arith) f),
              ))
      ]
    ]

load_account-known :
    (parse : String → Option String) (load : Option ℕ) (seed : String) (account : Account)
    (s : Submitter)
    → lookup seed s.accounts ≡ some account
    → load_account parse load seed s ≡ (s, none)
unfolding load_account
load_account-known parse load seed account s here = rw (load_account, here) refl

sign_and_submit-known :
    (parse : String → Option String) (seed : String) (o : Answers) (account : Account)
    (s : Submitter)
    → lookup seed s.accounts ≡ some account
    → sign_and_submit parse o seed s ≡ send seed account o s
unfolding sign_and_submit
sign_and_submit-known parse seed o account s here =
    ap (send_loaded seed o) (load_account-known parse o.load seed account s here)
    ∙ unfold send_loaded in ap (send_account seed o s) here ∙ unfold send_account in refl

-- What a call does to an account that counts.
sign_and_submit-Counts :
    (parse : String → Option String) (seed : String) (o : Answers) (n : ℕ) (s : Submitter)
    → suc n < 2 ^ 64
    → NoBadSeq o
    → Counts seed n s
    → Counts seed (suc n) (sign_and_submit parse o seed s).0
sign_and_submit-Counts parse seed o n s small good (account, here, same, f) =
    rw (sign_and_submit-known parse seed o account s here)
      (send-Counts seed account o n s small good same f)

unfoldable pub submit_all : (String → Option String) → List Answers → String → Submitter → Submitter
unfolding sign_and_submit
submit_all parse [] seed s = s
submit_all parse (o ∷ os) seed s = submit_all parse os seed (sign_and_submit parse o seed s).0

submit_all-Counts :
    (parse : String → Option String) (seed : String) (os : List Answers) (n : ℕ) (s : Submitter)
    → n + length os < 2 ^ 64
    → All NoBadSeq os
    → Counts seed n s
    → Counts seed (n + length os) (submit_all parse os seed s)
unfolding submit_all
submit_all-Counts parse seed [] n s small good (account, here, same, f) =
    (account, here, omega arith, Falls-le n (n + 0) s.sent (omega arith) f)
submit_all-Counts parse seed (o ∷ os) n s small good c =
    let (account, here, same, f) =
      submit_all-Counts parse seed os (suc n) (sign_and_submit parse o seed s).0 (omega arith)
        good.1 (sign_and_submit-Counts parse seed o n s (omega arith) good.0 c) in
    (
      account,
      here,
      omega arith,
      Falls-le (suc n + length os) (n + length (o ∷ os))
          (submit_all parse os seed (sign_and_submit parse o seed s).0).sent (omega arith) f,
    )

-- Calls for an account that is loaded with a sequence number and whose earlier transactions are at
-- most that, in a row and in whatever way each of them fails, as long as the network complains of no
-- sequence number and the numbers stay below `2 ^ 64`: every call counts the number up by one, and no
-- two of the recorded transactions have the same sequence, which rise in the order of the calls.
pub submit_all_lem :
    (parse : String → Option String) (seed : String) (os : List Answers) (account : Account)
    (s : Submitter)
    → lookup seed s.accounts ≡ some account
    → account.sequence_number + length os < 2 ^ 64
    → All NoBadSeq os
    → Falls account.sequence_number s.sent
    → Counts seed (account.sequence_number + length os) (submit_all parse os seed s)
submit_all_lem parse seed os account s here small good f =
    submit_all-Counts parse seed os account.sequence_number s small good (account, here, refl, f)
