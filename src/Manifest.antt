-- ===== src/Manifest.antt =====
-- Signed records: controller/crypto_receipts.py and the manifests of controller/signed_manifest.py.
pub mod Receipts
pub mod Keys
pub mod Signing
pub mod Validity
pub mod RoundTrip
mod Tests
