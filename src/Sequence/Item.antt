-- ===== src/Sequence/Item.antt =====
-- services/horizon/internal/txsub/sequence/queue.go and errors.go: the entries of the queue. A
-- channel is known by its number; what is sent on it is listed as a `Signal`.
use dfc_api.Base.{ℕ, Option}

pub record Item : Type 0 where
  pub sequence : ℕ  -- uint64
  pub chan : ℕ

pub data Err : Type 0 where
  no_more_room bad_sequence : Err

-- `ch <- err; close(ch)`; `none` is the nil error.
pub record Signal : Type 0 where
  pub chan : ℕ
  pub err : Option Err
