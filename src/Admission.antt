-- ===== src/Admission.antt =====
-- controller/resource_admission.py: the admission of local work by measured resources.
pub mod Gate
pub mod Checks
pub mod Exactness
mod Tests
