-- ===== src/Meta/Once.antt =====
-- What is read from the changes of one entry, of which the last is the operation's.
use dfc_api.Base.{
  Bool, true, false, ◌≡◌, refl, sym, ap, ◌∙◌, List, [], ◌∷◌, ◌++◌, Option, none, some,
}
use dfc_api.Xdr.{LedgerEntry, LedgerKey, LedgerEntryChange, created, updated, state, removed}
use dfc_api.Meta.{found, last_of, second_last, entry_after, entry_before, after_of, before_of}
use dfc_api.Meta.Replay.{replay_entry, Recorded, replay_entry-append}

-- One change of an entry, alone or after a `state`.
pub data Once : List LedgerEntryChange → Type 0 where
  creation : (e : LedgerEntry) → Once (created e ∷ [])
  update : (e : LedgerEntry) → Once (updated e ∷ [])
  removal : (k : LedgerKey) → Once (removed k ∷ [])
  from_state : (e : LedgerEntry) {cs : List LedgerEntryChange} → Once cs → Once (state e ∷ cs)

-- What `entry_before` makes of the last of some recorded changes.
last-Recorded :
    (c : LedgerEntryChange) (cs : List LedgerEntryChange) (seen : Bool) (old : Option LedgerEntry)
    → Recorded seen old (c ∷ cs)
    → entry_before (last_of c cs) ≡ found (replay_entry (c ∷ cs) old)
unfolding entry_before last_of replay_entry
last-Recorded (created e) [] seen old r = refl
last-Recorded (created e) (c ∷ cs) seen old r = last-Recorded c cs true (some e) r.1
last-Recorded (state e) [] seen old r = ap found (sym r.0)
last-Recorded (state e) (c ∷ cs) seen old r = last-Recorded c cs true old r.1
last-Recorded (updated e) [] seen old r = refl
last-Recorded (updated e) (c ∷ cs) seen old r = last-Recorded c cs true (some e) r.1
last-Recorded (removed k) [] seen old r = refl
last-Recorded (removed k) (c ∷ cs) seen old r = last-Recorded c cs true none r.1

Recorded-front :
    (cs ds : List LedgerEntryChange) (seen : Bool) (old : Option LedgerEntry)
    → Recorded seen old (cs ++ ds)
    → Recorded seen old cs
Recorded-front [] ds seen old r = tt
Recorded-front (created e ∷ cs) ds seen old (h, r) = (h, Recorded-front cs ds true (some e) r)
Recorded-front (state e ∷ cs) ds seen old (h, r) = (h, Recorded-front cs ds true old r)
Recorded-front (updated e ∷ cs) ds seen old (h, r) = (h, Recorded-front cs ds true (some e) r)
Recorded-front (removed k ∷ cs) ds seen old (h, r) = (h, Recorded-front cs ds true none r)

last_of-append :
    (c : LedgerEntryChange) (cs : List LedgerEntryChange) (d : LedgerEntryChange)
    → last_of c (cs ++ d ∷ []) ≡ d
unfolding last_of
last_of-append c [] d = refl
last_of-append c (e ∷ cs) d = last_of-append e cs d

second_last-append :
    (c : LedgerEntryChange) (cs : List LedgerEntryChange) (d : LedgerEntryChange)
    → before_of ((c ∷ cs) ++ d ∷ []) ≡ entry_before (last_of c cs)
unfolding before_of second_last last_of
second_last-append c [] d = refl
second_last-append c (e ∷ []) d = refl
second_last-append c (e ∷ f ∷ cs) d = second_last-append e (f ∷ cs) d

-- A change that is no `state`.
unfoldable pub is_change : LedgerEntryChange → Bool
is_change (state e) = false
is_change c = true

before-single :
    (d : LedgerEntryChange) (old : Option LedgerEntry)
    → is_change d ≡ true
    → Recorded false old (d ∷ [])
    → found none ≡ found old
unfolding is_change
before-single (created e) old h r = ap found (sym r.0)
before-single (state e) old h r = absurd cc
before-single (updated e) old h r = absurd cc (r.0)
before-single (removed k) old h r = absurd cc (r.0)

pub before-last :
    (cs : List LedgerEntryChange) (d : LedgerEntryChange) (old : Option LedgerEntry)
    → is_change d ≡ true
    → Recorded false old (cs ++ d ∷ [])
    → before_of (cs ++ d ∷ []) ≡ found (replay_entry cs old)
before-last [] d old h r = unfold before_of in unfold replay_entry in before-single d old h r
before-last (c ∷ cs) d old h r =
    second_last-append c cs d
    ∙ last-Recorded c cs false old (Recorded-front (c ∷ cs) (d ∷ []) false old r)

entry_after-change :
    (d : LedgerEntryChange) (old : Option LedgerEntry)
    → is_change d ≡ true
    → entry_after d ≡ found (replay_entry (d ∷ []) old)
unfolding entry_after replay_entry is_change
entry_after-change (created e) old h = refl
entry_after-change (state e) old h = absurd cc
entry_after-change (updated e) old h = refl
entry_after-change (removed k) old h = refl

pub after-last :
    (cs : List LedgerEntryChange) (d : LedgerEntryChange) (old : Option LedgerEntry)
    → is_change d ≡ true
    → after_of (cs ++ d ∷ []) ≡ found (replay_entry (cs ++ d ∷ []) old)
unfolding after_of
after-last [] d old h = unfold last_of in entry_after-change d old h
after-last (c ∷ cs) d old h =
    ap entry_after (last_of-append c cs d)
    ∙ entry_after-change d (replay_entry (c ∷ cs) old) h
    ∙ ap found (sym (replay_entry-append (c ∷ cs) (d ∷ []) old))

-- The last change, after records that leave the entry as it is.
pub record Split (ds : List LedgerEntryChange) : Type 0 where
  pub states : List LedgerEntryChange
  pub change : LedgerEntryChange
  pub whole : ds ≡ states ++ change ∷ []
  pub is_last : is_change change ≡ true
  pub idle : (e : Option LedgerEntry) → replay_entry states e ≡ e

pub Once-Split : {ds : List LedgerEntryChange} → Once ds → Split ds
unfolding is_change replay_entry
Once-Split (creation e) = record {
  states = [];
  change = created e;
  whole = refl;
  is_last = refl;
  idle = λ x. refl;
}
Once-Split (update e) = record {
  states = [];
  change = updated e;
  whole = refl;
  is_last = refl;
  idle = λ x. refl;
}
Once-Split (removal k) = record {
  states = [];
  change = removed k;
  whole = refl;
  is_last = refl;
  idle = λ x. refl;
}
Once-Split (from_state e o) =
    let s = Once-Split o in
    record {
      states = state e ∷ s.states;
      change = s.change;
      whole = ap (λ l. state e ∷ l) s.whole;
      is_last = s.is_last;
      idle = s.idle;
    }
