-- ===== src/Filter.antt =====
-- v99/filter/source_quality.py: trust in sources and the filter of a stream.
pub mod Sources
pub mod Sorted
mod Tests
