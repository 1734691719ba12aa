-- ===== src/Operations.antt =====
-- apps/operations: how an operator signs in. The throttle, the second factor and the endpoints.
pub mod Throttle
pub mod ClientAddress
pub mod Buckets
pub mod Totp
pub mod Replay
pub mod Mfa
pub mod Factor
pub mod Api
pub mod SignIn
pub mod SignInSteps
mod Tests
