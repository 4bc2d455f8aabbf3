-- ===== src/PeerSync.antt =====
-- controller/peer_sync.py: signed heartbeats of peers and the registry that receives them. `Message`
-- validates and builds messages, `Registry` keeps the state; the other children are the proofs.
pub mod Message
pub mod Registry
pub mod Replay
pub mod Authenticity
mod Tests
