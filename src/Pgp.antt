-- ===== src/Pgp.antt =====
-- pgp/: trust levels and the web of trust.
pub mod Trust
pub mod WebOfTrust
