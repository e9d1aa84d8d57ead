-- ===== src/Reap/Tables.antt =====
-- Clearing tables one after the other.
use dfc_api.Base.{
  ◌≡◌, refl, sym, ap, ◌∙◌, Bool, true, false, not, ◌&&◌, ◌||◌, All, Bool-cases, ◌⊎◌, inl, inr, List,
  [], ◌∷◌, ◌++◌, if◌then◌else◌, ◌==◌, arith,
}
use dfc_api.Base.Int.{ℤ, pos, leb_ℤ, ltb_ℤ}
use dfc_api.Ingest.Outcome.{Outcome, database, done, failed}
use dfc_api.Ingest.Session.{Row, row_id}
use dfc_api.Reap.{Table, table_of, number_of, is_deleted, delete_from, clear_tables}

unfoldable pub keep : (Row → Bool) → List Row → List Row
keep p [] = []
keep p (r ∷ rows) = if p r then r ∷ keep p rows else keep p rows

unfoldable pub among : Table → List Table → Bool
unfolding number_of
among t [] = false
among t (u ∷ us) = number_of t == number_of u || among t us

-- The rows that stay when tables have been cleared up to an id.
unfoldable pub stays : List Table → ℤ → Row → Bool
unfolding among table_of
stays cleared end r =
    not (among (table_of r) cleared && (leb_ℤ (pos 0) (row_id r) && ltb_ℤ (row_id r) end))

-- A clearing that reached the tables `cleared`: all of them, or those before one that is refused.
pub record Cleared (refuses : Table → Bool) (end : ℤ) (tables : List Table) (rows : List Row)
    (result : List Row × Outcome (Unit {0})) : Type 0 where
  pub cleared : List Table
  pub rest : List Table
  pub order : cleared ++ rest ≡ tables
  pub accepted : All (λ t. refuses t ≡ false) cleared
  pub kept : result.0 ≡ keep (stays cleared end) rows
  pub ended :
      ((rest ≡ []) × (result.1 ≡ done tt))
      ⊎ ((t : Table) × (refuses t ≡ true) × (result.1 ≡ failed database))

keep-all : (end : ℤ) (rows : List Row) → keep (stays [] end) rows ≡ rows
unfolding keep stays among
keep-all end [] = refl
keep-all end (r ∷ rows) = ap (λ l. r ∷ l) (keep-all end rows)

either : (a b c : Bool) → not ((a || b) && c) ≡ (not (a && c) && not (b && c))
either true true true = refl
either true true false = refl
either true false true = refl
either true false false = refl
either false true true = refl
either false true false = refl
either false false true = refl
either false false false = refl

pub swapped : (a b : Bool) → not (a && not b) ≡ (b || not a)
swapped true true = refl
swapped true false = refl
swapped false true = refl
swapped false false = refl

stays-cons :
    (t : Table) (ts : List Table) (end : ℤ) (r : Row)
    → stays (t ∷ ts) end r ≡ (not (is_deleted t end r) && stays ts end r)
unfolding stays is_deleted among
stays-cons t ts end r =
    either (number_of (table_of r) == number_of t) (among (table_of r) ts)
      (leb_ℤ (pos 0) (row_id r) && ltb_ℤ (row_id r) end)

keep-delete_from :
    (t : Table) (ts : List Table) (end : ℤ) (rows : List Row)
    → keep (stays ts end) (delete_from t end rows) ≡ keep (stays (t ∷ ts) end) rows
unfolding keep delete_from
keep-delete_from t ts end [] = refl
keep-delete_from t ts end (r ∷ rows) = elim (Bool-cases (is_deleted t end r)) [
  | inl gone ↦ rw (stays-cons t ts end r, gone) (keep-delete_from t ts end rows)
  | inr left ↦
      rw (stays-cons t ts end r, left)
        (unfold keep in
          ap (λ l. if stays ts end r then r ∷ l else l) (keep-delete_from t ts end rows))
]

pub clear_tables-Cleared :
    (refuses : Table → Bool) (end : ℤ) (tables : List Table) (rows : List Row)
    → Cleared refuses end tables rows (clear_tables refuses end tables rows)
unfolding clear_tables
clear_tables-Cleared refuses end [] rows = record {
  cleared = [];
  rest = [];
  order = refl;
  accepted = tt;
  kept = sym (keep-all end rows);
  ended = inl (refl, refl);
}
clear_tables-Cleared refuses end (t ∷ ts) rows = elim (Bool-cases (refuses t)) [
  | inl refused ↦ rw refused (record {
    cleared = [];
    rest = t ∷ ts;
    order = refl;
    accepted = tt;
    kept = sym (keep-all end rows);
    ended = inr (t, refused, refl);
  })
  | inr accepted ↦
      let r = clear_tables-Cleared refuses end ts (delete_from t end rows) in
      rw accepted (record {
        cleared = t ∷ r.cleared;
        rest = r.rest;
        order = ap (λ l. t ∷ l) r.order;
        accepted = (accepted, r.accepted);
        kept = r.kept ∙ keep-delete_from t r.cleared end rows;
        ended = r.ended;
      })
]

pub among-append :
    (t : Table) (us vs : List Table) → among t (us ++ vs) ≡ (among t us || among t vs)
unfolding among
among-append t [] vs = refl
among-append t (u ∷ us) vs = ground (arith, among-append t us vs)

pub keep_cong :
    (p q : Row → Bool) (rows : List Row) → ((r : Row) → p r ≡ q r) → keep p rows ≡ keep q rows
unfolding keep
keep_cong p q [] same = refl
keep_cong p q (r ∷ rows) same = rw (same r, keep_cong p q rows same) refl
