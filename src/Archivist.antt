-- ===== src/Archivist.antt =====
-- tools/dfc-archivist/internal: ranges of checkpoint ledgers.
pub mod Range
