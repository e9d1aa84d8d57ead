-- ===== src/Examples/Pages.antt =====
-- Page queries of services/horizon/internal/db2 with a parser that knows two numbers.
use text.Mathlib.Text.{◌==◌ as str_eq}
use dfc_api.Base.{◌≡◌, refl, true, Option, none, some, String, arith, if◌then◌else◌, ◌^◌, ◌-◌}
use dfc_api.Base.Int.{ℤ, pos, InInt64, neg_part}
use dfc_api.Paging.{new_page_query, split_pair, both, PageQuery, is_ok, cursor_int64_pair}
use dfc_api.Paging.Laws.{IsPage, new_page_query-IsPage, cursor_int64_pair-bounds}

abbrev known_numbers : String → Option ℤ
known_numbers s =
    if str_eq s "12"
    then some (pos 12)
    else if str_eq s "9223372036854775807"
    then some (pos (2 ^ 63 - 1))
    else none

known_numbers-fits : (s : String) (i : ℤ) → known_numbers s ≡ some i → InInt64 i
known_numbers-fits s i h = ground arith

abbrev twelfth : PageQuery
twelfth = record { cursor = "12"; order = "asc"; limit = 10 }

new_page_query-IsPage_example :
    IsPage twelfth
    × (twelfth.cursor ≡ "12")
    × (twelfth.limit ≡ 10)
    × (true ≡ true → is_ok (cursor_int64_pair known_numbers "-" twelfth) ≡ true)
unfolding new_page_query
new_page_query-IsPage_example = new_page_query-IsPage known_numbers "12" true "" 10 twelfth refl

cursor_int64_pair-bounds_example :
    (InInt64 (pos 12) × (neg_part (pos 12) ≡ 0))
    × (InInt64 (pos (2 ^ 63 - 1)) × (neg_part (pos (2 ^ 63 - 1)) ≡ 0))
unfolding cursor_int64_pair split_pair both
cursor_int64_pair-bounds_example =
    cursor_int64_pair-bounds known_numbers "-" twelfth (pos 12) (pos (2 ^ 63 - 1))
      known_numbers-fits refl
