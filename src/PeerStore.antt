-- ===== src/PeerStore.antt =====
-- controller/peer_store.py: the content-addressed store of objects with receipts.
pub mod Store
pub mod Retrieval
mod Tests
