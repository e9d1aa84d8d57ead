-- ===== src/Paging/Laws.antt =====
-- What is accepted as a page, and the pages that follow and come before.
use text.Mathlib.Text.{◌==◌ as str_eq}
use text.Mathlib.TextEquality.{eq_iff}
use dfc_api.Base.{
  Option-cases, sym, ap, ℕ, ◌≤◌, ◌≡◌, refl, Bool, true, false, Option, none, some, String, ◌⊎◌, inl,
  inr, arith, Bool-cases, ◌≢◌,
}
use dfc_api.Base.Int.{ℤ, InInt64, neg_part}
use dfc_api.Paging.{
  ascending, descending, PageQuery, invert, start, both, twice, check_order, check_rest, split_pair,
  is_ok, cursor_int64_pair, new_page_query,
}

-- One of the two orders.
abbrev pub IsOrder : String → Type 0
IsOrder order = (order ≡ ascending) ⊎ (order ≡ descending)

-- A query that every handler can run.
pub record IsPage (p : PageQuery) : Type 0 where
  pub ordered : IsOrder p.order
  pub positive : 1 ≤ p.limit
  pub small : p.limit ≤ 200

check_order-IsOrder : (order o : String) → check_order order ≡ some o → IsOrder o
unfolding check_order
check_order-IsOrder order o h = elim (Bool-cases (str_eq order "")) [
  | inl e ↦ inl (ground arith)
  | inr e ↦ elim (Bool-cases (str_eq order ascending)) [
    | inl f ↦ inl (ground (arith, eq_iff order ascending))
    | inr f ↦ inr (ground (arith, eq_iff order descending))
  ]
]

differ : descending ≢ ascending
differ f = let both : Path Bool false true = ap (λ (s : String). str_eq s ascending) f in cc both

-- Inverting a query twice gives it back, and inverting once reverses a valid order and keeps the
-- cursor and the limit.
pub invert_involutive :
    (p : PageQuery)
    → IsOrder p.order
    → (invert (invert p) ≡ p)
      × IsOrder (invert p).order
      × ((invert p).order ≢ p.order)
      × ((invert p).cursor ≡ p.cursor)
      × ((invert p).limit ≡ p.limit)
unfolding invert
invert_involutive p (inl e) =
    let record { cursor = c; order = o; limit = l } = p in
    rw e (refl, inr refl, λ f. differ f, refl, refl)
invert_involutive p (inr e) =
    let record { cursor = c; order = o; limit = l } = p in
    rw e (refl, inl refl, λ f. differ (sym f), refl, refl)

check_rest-IsPage :
    (parse_int : String → Option ℤ) (validate_cursor : Bool) (p q : PageQuery)
    → IsOrder p.order
    → check_rest parse_int validate_cursor p ≡ inr q
    → IsPage q
      × (q ≡ p)
      × (validate_cursor ≡ true → is_ok (cursor_int64_pair parse_int "-" q) ≡ true)
unfolding check_rest
check_rest-IsPage parse_int validate_cursor p q o h =
    let same : q ≡ p = ground arith in
    rw same (
      record { ordered = o; positive = ground arith; small = ground arith },
      refl,
      λ e. ground arith,
    )

-- A query that is made has a valid order and a limit from 1 to 200, keeps the cursor and the limit
-- that were asked for, and has a cursor that parses as a pair, where that was to be checked.
pub new_page_query-IsPage :
    (parse_int : String → Option ℤ) (cursor : String) (validate_cursor : Bool) (order : String)
    (limit : ℕ) (p : PageQuery)
    → new_page_query parse_int cursor validate_cursor order limit ≡ inr p
    → IsPage p
      × (p.cursor ≡ cursor)
      × (p.limit ≡ limit)
      × (validate_cursor ≡ true → is_ok (cursor_int64_pair parse_int "-" p) ≡ true)
unfolding new_page_query
new_page_query-IsPage parse_int cursor validate_cursor order limit p h =
    elim (Option-cases (check_order order)) [
      | inl e ↦ absurd (ground (arith, e))
      | inr (o, e) ↦
          let asked : PageQuery = record { cursor = cursor; order = o; limit = limit } in
          let checked : check_rest parse_int validate_cursor asked ≡ inr p = ground (arith, e) in
          let (page, same, cursor_ok) =
            check_rest-IsPage parse_int validate_cursor asked p (check_order-IsOrder order o e)
              checked in
          (
            page,
            ap (λ (q : PageQuery). q.cursor) same,
            ap (λ (q : PageQuery). q.limit) same,
            cursor_ok,
          )
    ]

both-eq-inr :
    (x y : Option ℤ) (l r : ℤ)
    → both x y ≡ inr (l, r)
    → (x ≡ some l) × (y ≡ some r) × (neg_part l ≡ 0) × (neg_part r ≡ 0)
unfolding both
both-eq-inr none y l r h = ground arith
both-eq-inr (some i) none l r h = ground arith
both-eq-inr (some i) (some j) l r h = (ground arith, ground arith, ground arith, ground arith)

-- Where integers parse into int64, a pair of cursors that is read from a query has two numbers
-- from 0 to 2^63 - 1, whatever the order and the separator.
pub cursor_int64_pair-bounds :
    (parse_int : String → Option ℤ) (sep : String) (p : PageQuery) (l r : ℤ)
    → ((s : String) (i : ℤ) → parse_int s ≡ some i → InInt64 i)
    → cursor_int64_pair parse_int sep p ≡ inr (l, r)
    → (InInt64 l × (neg_part l ≡ 0)) × (InInt64 r × (neg_part r ≡ 0))
unfolding cursor_int64_pair
cursor_int64_pair-bounds parse_int sep p l r fits h = elim (Bool-cases (str_eq p.cursor "")) [
  | inl e ↦ unfold start in unfold twice in (ground arith)
  | inr e ↦
      let (first, second) = split_pair sep p.cursor in
      let read : both (parse_int first) (parse_int second) ≡ inr (l, r) = ground (arith, e) in
      let (a, b, c, d) = both-eq-inr (parse_int first) (parse_int second) l r read in
      ((fits first l a, c), (fits second r b, d))
]
