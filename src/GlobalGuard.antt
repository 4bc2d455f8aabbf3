-- ===== src/GlobalGuard.antt =====
-- global_guard: the policy gate for the actions of agents. `Policy` models policy.py, `Scenarios`
-- scenario_runner.py; the other children are the proofs.
pub mod Policy
pub mod Chains
pub mod Permission
pub mod Guarantees
pub mod Scenarios
pub mod Verdict
mod Tests
