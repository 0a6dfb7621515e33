-- ===== src/Intelligence.antt =====
-- backend/app/modules/intelligence.
pub mod Json
pub mod References
pub mod Analysis
pub mod Jobs
pub mod Chat
pub mod Registry
pub mod Rerank
pub mod Similarity
pub mod Suggestions
pub mod Requests
pub mod Conversations
