-- ===== src/Examples.antt =====
-- Runs at concrete inputs, and the theorems applied to them.
mod Data
mod Policies
mod Service
mod Limits
mod Identity
mod Retrieval
mod Analysis
mod Jobs
mod Chat
mod Registry
mod Similarity
mod Suggestions
mod Requests
mod Conversations
