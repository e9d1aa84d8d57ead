-- ===== src/Bridge/Listener/Laws.antt =====
-- No payment is passed on twice.
use package.text.Mathlib.Text.{◌==◌}
use package.text.Mathlib.TextEquality.{eq_iff}
use dfc_api.Base.{
  ℕ, ◌≤◌, ◌≡◌, refl, sym, Bool, true, false, Bool-cases, Option-cases, inl, inr, List, [], ◌∷◌,
  Option, none, some, String, count, of_bool, arith,
}
use dfc_api.Base.Map.{lookup, insert, lookup-insert}
use dfc_api.Bridge.Listener.{
  Payment, Config, Form, Answers, Status, Listener, Stored, Routed, routed, unrouted, as_payment,
  route_of, post, process_paid, process_as, process, cons_form, status_of, update_status,
  process_received, decide, on_payment, should_process_payment, form_of, processing,
}

abbrev has {ℓ} : {A : Type ℓ} → Option A → Bool
has none = false
has (some a) = true

-- How often a payment was passed on.
abbrev pub passed_on : String → List Form → ℕ
passed_on id forms = count (λ f. f.id == id) forms

-- Each payment was passed on at most once, and then it is in the table.
abbrev pub Once : Listener → Type 0
Once s = (id : String) → passed_on id s.posted ≤ of_bool (has (lookup id s.received))

abbrev OfPayment : String → Option Form → Type 0
OfPayment id none = Unit
OfPayment id (some f) = f.id ≡ id

post-OfPayment : (o : Answers) (p : Payment) (r : Routed) → OfPayment p.id (post o p r).0
unfolding post form_of
post-OfPayment o p (routed route) = refl
post-OfPayment o p (unrouted e) = tt

paid-OfPayment :
    (config : Config) (o : Answers) (p : Payment) (memo : Option (String × String))
    → OfPayment p.id (process_paid config o p memo).0
unfolding process_paid
paid-OfPayment config o p none = tt
paid-OfPayment config o p (some memo) = post-OfPayment o p (route_of config o memo)

as-OfPayment :
    (config : Config) (o : Answers) (id : String) (p : Option Payment)
    → ((q : Payment) → p ≡ some q → q.id ≡ id)
    → OfPayment id (process_as config o p).0
unfolding process_as
as-OfPayment config o id none same = tt
as-OfPayment config o id (some p) same = rw (sym (same p refl)) (paid-OfPayment config o p o.memo)

as_payment-id : (o : Answers) (p q : Payment) → as_payment o p ≡ some q → q.id ≡ p.id
unfolding as_payment
as_payment-id o p q e = ground arith

process-OfPayment :
    (config : Config) (o : Answers) (p : Payment) → OfPayment p.id (process config o p).0
unfolding process
process-OfPayment config o p =
    as-OfPayment config o p.id (as_payment o p) (λ q e. as_payment-id o p q e)

-- A table that has a payment keeps it.
update-Once :
    (updated : Bool) (id : String) (status : Status) (s : Listener)
    → Once s
    → Once (update_status updated id status s)
unfolding update_status
update-Once false id status s once other = once other
update-Once true id status s once other =
    ground (arith, lookup-insert id other status s.received, once other)

cons-Once :
    (id : String) (form : Option Form) (forms : List Form) (table : List (String × Status))
    → OfPayment id form
    → lookup id table ≡ none
    → Once (record { received = table; posted = forms })
    → Once (record { received = insert id processing table; posted = cons_form form forms })
unfolding cons_form
cons-Once id none forms table same new once other =
    ground (arith, lookup-insert id other processing table, once other)
cons-Once id (some f) forms table same new once other =
    ground (
      arith,
      lookup-insert id other processing table,
      once other,
      eq_iff id other,
      eq_iff f.id other,
    )

process-Once :
    (config : Config) (o : Answers) (updated : Bool) (p : Payment) (s : Listener)
    → lookup p.id s.received ≡ none
    → Once s
    → Once (
        process_received config o updated p
          (record s { received = insert p.id processing s.received }))
unfolding process_received
process-Once config o updated p s new once =
    update-Once updated p.id (status_of (process config o p).1) _ (
      cons-Once p.id (process config o p).0 s.posted s.received (process-OfPayment config o p) new
        once)

decide-Once :
    (config : Config) (o : Answers) (updated : Bool) (p : Payment) (status : Option Status)
    (s : Listener)
    → lookup p.id s.received ≡ none
    → Once s
    → Once (
        decide config o updated p status
          (record s { received = insert p.id processing s.received }))
unfolding decide
decide-Once config o updated p none s new once = process-Once config o updated p s new once
decide-Once config o updated p (some status) s new once =
    update-Once updated p.id status _
      (unfold cons_form in cons-Once p.id none s.posted s.received tt new once)

on_payment-Once :
    (config : Config) (d : Stored) (o : Answers) (p : Payment) (s : Listener)
    → Once s
    → Once (on_payment config d o p s)
unfolding on_payment
on_payment-Once config d o p s once = elim (Bool-cases d.read) [
  | inr unread ↦ rw (on_payment, unread) once
  | inl known ↦ elim (Option-cases (lookup p.id s.received)) [
    | inr (status, here) ↦ rw (on_payment, known, here) once
    | inl new ↦ elim (Bool-cases d.inserted) [
      | inr lost ↦ rw (on_payment, known, new, lost) once
      | inl stored ↦
          rw (on_payment, known, new, stored)
            (decide-Once config o d.updated p (should_process_payment config p) s new once)
    ]
  ]
]

-- The payments of a stream, with the answers to the requests and the calls for each.
unfoldable pub listen : Config → List (Stored × Answers × Payment) → Listener → Listener
unfolding on_payment
listen config [] s = s
listen config ((d, o, p) ∷ events) s = listen config events (on_payment config d o p s)

-- Whatever the stream, also one that repeats payments, and however the database and the requests
-- fail: each payment is passed on to the callback at most once, and only if it is in the table of
-- received payments.
pub listen-Once :
    (config : Config) (events : List (Stored × Answers × Payment)) (s : Listener)
    → Once s
    → Once (listen config events s)
unfolding listen
listen-Once config [] s once = once
listen-Once config ((d, o, p) ∷ events) s once =
    listen-Once config events (on_payment config d o p s) (on_payment-Once config d o p s once)
