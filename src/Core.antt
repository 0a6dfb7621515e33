-- ===== src/Core.antt =====
-- backend/app/core: what the business modules share.
pub mod Errors
pub mod Permissions
pub mod Throttle
pub mod Pagination
