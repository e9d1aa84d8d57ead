-- ===== src/Sequence.antt =====
-- services/horizon/internal/txsub/sequence: the queues that hold submissions back until their
-- sequence number is the next one of the account.
pub mod Item
pub mod Heap
pub mod Queue
pub mod Manager
