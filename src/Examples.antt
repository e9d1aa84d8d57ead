-- ===== src/Examples.antt =====
-- Concrete inputs for the theorems of the library, one module for each component.
mod Toids
mod Sequences
mod SimplePaths
mod Submissions
mod Providers
mod Ranges
mod Pages
mod Metas
mod Ingests
mod Schedules
mod Bridges
mod Prices
mod Checksums
mod Addresses
