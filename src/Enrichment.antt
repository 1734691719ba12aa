-- ===== src/Enrichment.antt =====
-- apps/enrichment: what a model call costs and the cap before it, extraction, the gate and the tasks.
pub mod Pricing
pub mod Costs
pub mod Client
pub mod Estimates
pub mod Cap
pub mod Cached
pub mod Segments
pub mod Segmented
pub mod Anchors
pub mod Batches
pub mod Claims
pub mod Extract
pub mod Asked
pub mod Extracted
pub mod Settled
pub mod Spent
pub mod Gate
pub mod Tasks
pub mod Decisions
pub mod Funnel
mod Runs
mod Trials
mod Tests
