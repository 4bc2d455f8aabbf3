-- ===== src/Worker.antt =====
-- controller/worker.py: tasks, the workspace and the queue of the offline worker; controller/observer.py.
pub mod Task
pub mod Observer
pub mod Queue
pub mod Keeping
pub mod Places
pub mod Outcomes
pub mod Files
pub mod Verification
mod Tests
