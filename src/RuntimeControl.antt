-- ===== src/RuntimeControl.antt =====
-- controller/runtime_control.py: the bounded controller of the Compose service `worker`.
-- `Decision` holds the thresholds and the pure decision, `Observation` the reading of Docker's
-- output, `Cycle` the control cycle over a host. The other children are the proofs.
pub mod Decision
pub mod Observation
pub mod Cycle
pub mod Thresholds
pub mod Snapshots
pub mod Monad
pub mod Scales
pub mod Steps
pub mod Safety
pub mod Outcomes
mod Tests
