-- ===== src/Bridge.antt =====
-- services/bridge: the transactions that the bridge server sends and the payments that it receives.
pub mod Submitter
pub mod Listener
