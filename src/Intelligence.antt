-- ===== src/Intelligence.antt =====
-- apps/intelligence: the states of a signal and its score.
pub mod Review
pub mod Reviewed
pub mod Components
pub mod Scores
mod Tests
