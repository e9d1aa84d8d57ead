-- ===== src/Paging.antt =====
-- services/horizon/internal/db2/page_query.go and main.go: paging. `parse_int` is
-- strconv.ParseInt in base 10 with 64 bits, `none` for its errors.
pub mod Laws
use Prim.Native.String.{len, find, slice}
use text.Mathlib.Text.{◌==◌ as str_eq}
use dfc_api.Base.{
  ℕ, ◌+◌, ◌<◌, Bool, true, false, not, ◌||◌, List, [], ◌∷◌, Option, none, some, String, ◌⊎◌, inl,
  inr, leb, ltb, ◌==◌, if◌then◌else◌, ◌^◌, ◌-◌,
}
use dfc_api.Base.Int.{ℤ, pos, ltb_ℤ}

abbrev pub max_page_size : ℕ
max_page_size = 200

abbrev pub ascending : String
ascending = "asc"

abbrev pub descending : String
descending = "desc"

abbrev pub max_int64 : ℤ
max_int64 = pos (2 ^ 63 - 1)

pub data Err : Type 0 where
  invalid_order invalid_limit invalid_cursor : Err
  first_unparseable second_unparseable : Err
  not_pageable : Err

pub record PageQuery : Type 0 where
  pub cursor : String
  pub order : String
  pub limit : ℕ  -- uint64

unfoldable pub invert : PageQuery → PageQuery
invert p =
    if str_eq p.order ascending
    then record p { order = descending }
    else if str_eq p.order descending
    then record p { order = ascending }
    else p

-- Where the order starts, for an empty cursor.
unfoldable pub start : String → Err ⊎ ℤ
start order =
    if str_eq order ascending
    then inr (pos 0)
    else if str_eq order descending
    then inr max_int64
    else inl invalid_order

unfoldable pub non_negative : Option ℤ → Err ⊎ ℤ
non_negative none = inl invalid_cursor
non_negative (some i) = if ltb_ℤ i (pos 0) then inl invalid_cursor else inr i

unfoldable pub cursor_int64 : (String → Option ℤ) → PageQuery → Err ⊎ ℤ
unfolding start non_negative
cursor_int64 parse_int p =
    if str_eq p.cursor "" then start p.order else non_negative (parse_int p.cursor)

-- strings.SplitN in two, where the separator is not empty. Without a separator in the text, the
-- second part is the largest int64, as the caller then appends it.
unfoldable pub split_pair : String → String → String × String
split_pair sep s =
    let i = find s sep in
    if leb i (len s)
    then (slice s 0 i, slice s (i + len sep) (len s))
    else (s, "9223372036854775807")

unfoldable pub both : Option ℤ → Option ℤ → Err ⊎ (ℤ × ℤ)
both none r = inl first_unparseable
both (some l) none = inl second_unparseable
both (some l) (some r) =
    if ltb_ℤ l (pos 0) || ltb_ℤ r (pos 0) then inl invalid_cursor else inr (l, r)

unfoldable pub twice : Err ⊎ ℤ → Err ⊎ (ℤ × ℤ)
twice (inl e) = inl e
twice (inr n) = inr (n, n)

unfoldable pub cursor_int64_pair : (String → Option ℤ) → String → PageQuery → Err ⊎ (ℤ × ℤ)
unfolding start split_pair both twice
cursor_int64_pair parse_int sep p =
    if str_eq p.cursor ""
    then twice (start p.order)
    else let (first, second) = split_pair sep p.cursor in both (parse_int first) (parse_int second)

-- The default is the ascending order.
unfoldable pub check_order : String → Option String
check_order order =
    if str_eq order ""
    then some ascending
    else if str_eq order ascending || str_eq order descending
    then some order
    else none

unfoldable pub is_ok {ℓ} : {A : Type ℓ} → Err ⊎ A → Bool
is_ok (inl e) = false
is_ok (inr a) = true

unfoldable pub check_rest : (String → Option ℤ) → Bool → PageQuery → Err ⊎ PageQuery
unfolding cursor_int64_pair is_ok
check_rest parse_int validate_cursor p =
    let wrong_cursor =
      if validate_cursor then not (is_ok (cursor_int64_pair parse_int "-" p)) else false in
    if wrong_cursor
    then inl invalid_cursor
    else if (p.limit == 0) || ltb max_page_size p.limit
    then inl invalid_limit
    else inr p

unfoldable pub new_page_query : (String → Option ℤ) → String → Bool → String → ℕ → Err ⊎ PageQuery
unfolding check_rest check_order
new_page_query parse_int cursor validate_cursor order limit = elim (check_order order) [
  | none ↦ inl invalid_order
  | some o ↦
      check_rest parse_int validate_cursor (record { cursor = cursor; order = o; limit = limit })
]

-- The last record of a list that is not empty.
unfoldable pub last_of : Option String → List (Option String) → Option String
last_of r [] = r
last_of r (s ∷ rs) = last_of s rs

unfoldable pub with_cursors :
    PageQuery → Option String → Option String → Option (PageQuery × PageQuery)
unfolding invert
with_cursors p (some first) (some last) =
    some (record p { cursor = last }, record (invert p) { cursor = first })
with_cursors p first last = none

-- A record is its paging token, `none` if it is not pageable. The result `none` is the panic of a
-- method call on a nil interface, which comes before the error can be returned.
unfoldable pub get_continuations : PageQuery → List (Option String) → Option (PageQuery × PageQuery)
unfolding with_cursors last_of invert
get_continuations p [] = some (p, invert p)
get_continuations p (r ∷ rs) = with_cursors p r (last_of r rs)
