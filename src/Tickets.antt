-- ===== src/Tickets.antt =====
-- backend/app/modules/tickets: the ticket component.
pub mod Enums
pub mod Policies
pub mod Model
pub mod Repository
pub mod Service
pub mod Lifecycle
pub mod Auditing
pub mod Locking
pub mod Tracking
