-- ===== src/Toid/Order.antt =====
-- Packing keeps the three fields, and orders them as the number does.
use mathlib.Core.Path.{subst, subst₂}
use dfc_api.Base.{
  ℕ, ◌+◌, ◌*◌, ◌/◌, ◌%◌, ◌^◌, ◌==◌, if◌then◌else◌, ◌<◌, ◌≡◌, ◌∙◌, ap, sym, true, false, Bool-cases,
  ◌⊎◌, inl, inr, some, arith, ◌↔◌,
}
use dfc_api.Base.Int.{ℤ, pos, negsuc, ◌<ℤ◌, ◌+ℤ◌, pos_part, neg_part}
use dfc_api.Base.Bits.{bit_or_disjoint, zero-bit_or}
use dfc_api.Toid.{
  OrderId, operation_mask, new, inc_operation_order, to_int64, parse, pack, field_of,
}

-- The three components fit their fields: a non-negative int32 ledger, 20 and 12 bits.
pub record Fits (l t o : ℕ) : Type 0 where
  pub ledger : l < 2 ^ 31
  pub transaction : t < 2 ^ 20
  pub operation : o < 2 ^ 12

abbrev pub position : ℕ → ℕ → ℕ → ℕ
position l t o = l * 2 ^ 32 + t * 2 ^ 12 + o

pack-position : (l t o : ℕ) → Fits l t o → pack (new (pos l) (pos t) (pos o)) ≡ position l t o
unfolding pack new
pack-position l t o f = ground (
  arith,
  zero-bit_or (l * 2 ^ 32),
  bit_or_disjoint 32 l (t * 2 ^ 12) (omega arith),
  bit_or_disjoint 12 (l * 2 ^ 20 + t) o (omega arith),
)

pub to_int64-position :
    (l t o : ℕ) → Fits l t o → to_int64 (new (pos l) (pos t) (pos o)) ≡ some (pos (position l t o))
unfolding to_int64 new
to_int64-position l t o f = ground (arith, pack-position l t o f)

field_of-position :
    (l t o : ℕ)
    → Fits l t o
    → (field_of (pos (position l t o)) 32 32 ≡ l)
      × (field_of (pos (position l t o)) 12 20 ≡ t)
      × (field_of (pos (position l t o)) 0 12 ≡ o)
unfolding field_of
field_of-position l t o f = omega arith

parse-position :
    (l t o : ℕ) → Fits l t o → parse (pos (position l t o)) ≡ new (pos l) (pos t) (pos o)
unfolding parse new
parse-position l t o f = ground (arith, field_of-position l t o f)

-- The fields of an int32 ID that `to_int64` accepts, where neither order is negative.
abbrev pub NonNegative : OrderId → Type 0
NonNegative id = (neg_part id.transaction_order ≡ 0) × (neg_part id.operation_order ≡ 0)

pub to_int64-Fits :
    (l t o : ℕ) {v : ℤ} → l < 2 ^ 31 → to_int64 (new (pos l) (pos t) (pos o)) ≡ some v → Fits l t o
unfolding to_int64 new
to_int64-Fits l t o h e = ground arith

round_trip :
    (l t o : ℤ) {v : ℤ}
    → pos_part l < 2 ^ 31
    → NonNegative (new l t o)
    → to_int64 (new l t o) ≡ some v
    → parse v ≡ new l t o
unfolding new
round_trip (pos l) (pos t) (pos o) {v} h n e =
    let f = to_int64-Fits l t o h e in
    let same : v ≡ pos (position l t o) = cc (to_int64-position l t o f) in
    rw same (parse-position l t o f)
round_trip (negsuc l) t o h n e = absurd (unfold to_int64 in ground arith)
round_trip (pos l) (negsuc t) o h n e = absurd (omega arith)
round_trip (pos l) (pos t) (negsuc o) h n e = absurd (omega arith)

-- Parsing the number that an ID was packed into gives the ID back.
pub parse-to_int64 :
    (id : OrderId) {v : ℤ}
    → pos_part id.ledger_sequence < 2 ^ 31
    → NonNegative id
    → to_int64 id ≡ some v
    → parse v ≡ id
unfolding new
parse-to_int64 id h n e =
    round_trip id.ledger_sequence id.transaction_order id.operation_order h n e

fields-position : (n : ℕ) → n < 2 ^ 63 → Fits (n / 2 ^ 32) (n / 2 ^ 12 % 2 ^ 20) (n % 2 ^ 12)
fields-position n h = omega arith

-- Every non-negative int64 is the number of the ID that it parses to.
pub to_int64-parse : (n : ℕ) → n < 2 ^ 63 → to_int64 (parse (pos n)) ≡ some (pos n)
to_int64-parse n h =
    let l = n / 2 ^ 32 in
    let t = n / 2 ^ 12 % 2 ^ 20 in
    let o = n % 2 ^ 12 in
    let whole : position l t o ≡ n = omega arith in
    let f = fields-position n h in
    subst (λ m. to_int64 (parse (pos m)) ≡ some (pos m)) whole
      (rw (parse-position l t o f) (to_int64-position l t o f))

positions_order :
    (l t o l' t' o' : ℕ)
    → Fits l t o
    → Fits l' t' o'
    → (pos (position l t o) <ℤ pos (position l' t' o'))
      ↔ ((l < l') ⊎ (l ≡ l') × ((t < t') ⊎ (t ≡ t') × (o < o')))
positions_order l t o l' t' o' f f' = ground arith

-- The numbers are ordered as the three fields are, ledger first.
pub to_int64_order :
    (l t o l' t' o' : ℕ) {v v' : ℤ}
    → Fits l t o
    → Fits l' t' o'
    → to_int64 (new (pos l) (pos t) (pos o)) ≡ some v
    → to_int64 (new (pos l') (pos t') (pos o')) ≡ some v'
    → (v <ℤ v') ↔ ((l < l') ⊎ (l ≡ l') × ((t < t') ⊎ (t ≡ t') × (o < o')))
to_int64_order l t o l' t' o' {v} {v'} f f' e e' =
    let here : v ≡ pos (position l t o) = cc (to_int64-position l t o f) in
    let there : v' ≡ pos (position l' t' o') = cc (to_int64-position l' t' o' f') in
    subst₂ (λ a b. (a <ℤ b) ↔ ((l < l') ⊎ (l ≡ l') × ((t < t') ⊎ (t ≡ t') × (o < o')))) (sym here)
      (sym there) (positions_order l t o l' t' o' f f')

inc-within :
    (l t o : ℕ)
    → Fits l t o
    → (o == operation_mask) ≡ false
    → inc_operation_order (new (pos l) (pos t) (pos o)) ≡ new (pos l) (pos t) (pos (o + 1))
unfolding inc_operation_order new ◌+ℤ◌
inc-within l t o f e = ground arith

inc-last :
    (l t o : ℕ)
    → Fits l t o
    → Fits (l + 1) t o
    → (o == operation_mask) ≡ true
    → inc_operation_order (new (pos l) (pos t) (pos o)) ≡ new (pos (l + 1)) (pos t) (pos 0)
unfolding inc_operation_order new ◌+ℤ◌
inc-last l t o f f' e = ground arith

-- The next operation order has the next number, unless it overflows its 12 bits: then the ledger
-- moves on and the transaction order is kept.
pub to_int64-inc_operation_order :
    (l t o : ℕ)
    → Fits l t o
    → Fits (l + 1) t o
    → to_int64 (inc_operation_order (new (pos l) (pos t) (pos o)))
      ≡ some (if o == operation_mask then pos (position (l + 1) t 0) else pos (position l t o + 1))
to_int64-inc_operation_order l t o f f' = elim (Bool-cases (o == operation_mask)) [
  | inl e ↦ rw (e, inc-last l t o f f' e) (to_int64-position (l + 1) t 0 (omega arith))
  | inr e ↦
      rw (e, inc-within l t o f e)
        (to_int64-position l t (o + 1) (ground arith) ∙ ap some (ap pos (omega arith)))
]
