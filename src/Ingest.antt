-- ===== src/Ingest.antt =====
-- services/horizon/internal/ingest: the transformation of the core server's ledgers into history.
pub mod Outcome
pub mod Cursor
pub mod Effects
pub mod Participants
pub mod Details
pub mod Session
pub mod System
