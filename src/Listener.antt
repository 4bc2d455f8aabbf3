-- ===== src/Listener.antt =====
-- controller/v91_listener.py: signed events from an inbox. `Envelope` models the checks of an event,
-- `Pipeline` its recording; the other children are the proofs.
pub mod Envelope
pub mod Pipeline
pub mod Recording
mod Tests
