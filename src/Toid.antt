-- ===== src/Toid.antt =====
-- services/horizon/internal/toid/main.go: the 64-bit order of ledgers, transactions and operations.
-- A panic is `none`.
pub mod Order
use Prim.Native.Nat.{bit_or}
use dfc_api.Base.{ℕ, ◌-◌, ◌*◌, ◌/◌, ◌%◌, ◌^◌, Option, none, some, if◌then◌else◌}
use dfc_api.Base.Int.{ℤ, pos, ◌+ℤ◌, ltb_ℤ, wrap, int32, int64}

-- The three fields are int32.
pub record OrderId : Type 0 where
  pub ledger_sequence : ℤ
  pub transaction_order : ℤ
  pub operation_order : ℤ

abbrev pub ledger_mask : ℕ
ledger_mask = 2 ^ 32 - 1

abbrev pub transaction_mask : ℕ
transaction_mask = 2 ^ 20 - 1

abbrev pub operation_mask : ℕ
operation_mask = 2 ^ 12 - 1

unfoldable pub new : ℤ → ℤ → ℤ → OrderId
new ledger tx op = record { ledger_sequence = ledger; transaction_order = tx; operation_order = op }

unfoldable pub after_ledger : ℤ → OrderId
unfolding new
after_ledger seq = new seq (pos transaction_mask) (pos operation_mask)

-- `x++` on an int32 wraps.
unfoldable pub increment : ℤ → ℤ
increment x = int32 (wrap (2 ^ 32) (x +ℤ pos 1))

unfoldable pub inc_operation_order : OrderId → OrderId
unfolding increment
inc_operation_order id =
    let next = increment id.operation_order in
    if ltb_ℤ (pos operation_mask) next
    then record id { operation_order = pos 0; ledger_sequence = increment id.ledger_sequence }
    else record id { operation_order = next }

-- `x & mask` for a mask of low bits is the remainder; the shifted ledger loses its bits past 64.
unfoldable pub pack : OrderId → ℕ
pack id =
    let ledger = wrap (2 ^ 32) id.ledger_sequence * 2 ^ 32 in
    let transaction = wrap (2 ^ 20) id.transaction_order * 2 ^ 12 in
    bit_or (bit_or (bit_or 0 ledger) transaction) (wrap (2 ^ 12) id.operation_order)

unfoldable pub to_int64 : OrderId → Option ℤ
unfolding pack
to_int64 id =
    if ltb_ℤ id.ledger_sequence (pos 0)
    then none
    else if ltb_ℤ (pos transaction_mask) id.transaction_order
    then none
    else if ltb_ℤ (pos operation_mask) id.operation_order
    then none
    else some (int64 (pack id))

-- `(id >> shift) & mask`, of the bits of an int64, where the mask has `bits` ones.
unfoldable pub field_of : ℤ → ℕ → ℕ → ℕ
field_of id shift bits = wrap (2 ^ 64) id / 2 ^ shift % 2 ^ bits

unfoldable pub parse : ℤ → OrderId
unfolding field_of
parse id = record {
  ledger_sequence = int32 (field_of id 32 32);
  transaction_order = int32 (field_of id 12 20);
  operation_order = int32 (field_of id 0 12);
}
