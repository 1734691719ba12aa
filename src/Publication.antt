-- ===== src/Publication.antt =====
-- apps/publication: the gate between an approved version and the client, and what goes out by mail.
pub mod Gate
pub mod Outcome
pub mod Uniqueness
pub mod Withdrawal
pub mod Recipients
pub mod Delivery
pub mod Addresses
pub mod Delivered
pub mod Lifecycle
pub mod Preservation
mod Tests
