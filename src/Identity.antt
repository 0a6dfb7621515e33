-- ===== src/Identity.antt =====
-- backend/app/modules/identity and the token part of backend/app/core/security.py.
pub mod Model
pub mod Repository
pub mod Service
pub mod Rotation
