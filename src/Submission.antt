-- ===== src/Submission.antt =====
-- services/horizon/internal/txsub: the transaction submission system around the sequence queues.
pub mod Result
pub mod OpenList
pub mod System
pub mod Provider
