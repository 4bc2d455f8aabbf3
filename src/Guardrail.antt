-- ===== src/Guardrail.antt =====
-- addons/v91_guardrail: the policy of core.py and the tool gateway of guarded_runner.py over it.
pub mod Policy
pub mod Runner
pub mod Decisions
pub mod Gate
mod Tests
