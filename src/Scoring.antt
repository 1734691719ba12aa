-- ===== src/Scoring.antt =====
-- apps/scoring: what a signal is worth to one client, and what is recommended on it.
pub mod Rank
pub mod Ranked
pub mod Recommend
pub mod Grounded
pub mod Decided
pub mod Draft
pub mod Drafts
mod Tests
mod Reviews
