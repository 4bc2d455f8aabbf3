-- ===== src/Measurement.antt =====
-- controller/measurement_core.py: the hash-chained ledger of measurements. `Chain` models the
-- verification and the appending; the other children are the proofs.
pub mod Chain
pub mod Appending
pub mod Tampering
mod Tests
