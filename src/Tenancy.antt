-- ===== src/Tenancy.antt =====
-- apps/tenancy: the tenant bound to a request, the default-deny managers over it, and the two
-- middlewares that bind it.
pub mod Context
pub mod Managers
pub mod Middleware
pub mod Isolation
pub mod Escalation
mod Tests
