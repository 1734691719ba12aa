-- ===== src/Outputs.antt =====
-- apps/outputs/services.py: drafting, approval, expert sign-off and record notes.
pub mod Services
pub mod Outcome
