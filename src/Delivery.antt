-- ===== src/Delivery.antt =====
-- Delivery of notifications over channels (_delivery): the ledger of attempts, and the pass over the
-- recipients.
pub mod Ledger
pub mod Pass
pub mod Tries
pub mod Passes
pub mod Settled
pub mod Retries
pub mod Counted
