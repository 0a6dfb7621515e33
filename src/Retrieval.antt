-- ===== src/Retrieval.antt =====
-- backend/app/modules/intelligence/retrieval.
pub mod Fusion
