-- ===== src/V99.antt =====
-- v99/core: the agent that inspects and repairs modules, and its schedule. `Status`, `Lifecycle`,
-- `Modules`, `Registry`, `Agent` and `Scheduler` model the files of these names; the other children
-- are the proofs.
pub mod Status
pub mod Lifecycle
pub mod Modules
pub mod Registry
pub mod Agent
pub mod Scheduler
pub mod Severity
pub mod Transitions
pub mod SpecRoundTrip
pub mod Registration
pub mod Inspection
pub mod Repairs
pub mod History
mod Tests
