-- ===== src/Evidence.antt =====
-- apps/evidence: content items, how their text is acquired, and what marks a post as paid for.
pub mod Items
pub mod Promotion
pub mod Providers
pub mod Rungs
pub mod Ladder
pub mod Walks
pub mod Acquired
pub mod Unheard
pub mod Duplicates
pub mod Matched
pub mod Conversations
mod Copies
mod Tests
