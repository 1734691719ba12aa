-- ===== src/Store.antt =====
-- The tables that drafting, approval, publication and delivery share, and the transactions over
-- them.
pub mod Rows
pub mod Database
pub mod Queries
