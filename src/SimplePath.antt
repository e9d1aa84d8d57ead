-- ===== src/SimplePath.antt =====
-- services/horizon/internal/simplepath: payment paths through the order books of dfc-core.
pub mod Result
pub mod OrderBook
pub mod Path
pub mod Search
