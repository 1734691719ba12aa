-- ===== src/Tenancy/Context.antt =====
-- apps/tenancy/context.py: the bound tenant as request-local state. A context variable is a field
-- of `Context`; what `ContextVar.set` returns is the value to which `reset` goes back.
use trend_engine_backend.Base.{ℕ, Bool, true, false, Result, ok, err}

-- What `_tenant` holds: the sentinels `UNSET` and `OPERATOR_ALL`, or the id of an organisation.
pub data Tenant : Type 0 where
  unset : Tenant
  operator_all : Tenant
  bound : ℕ → Tenant

-- `settings.TENANT_PLANE`, a property of the process.
pub data Plane : Type 0 where
  operator_plane portal_process : Plane

pub record Context : Type 0 where
  pub tenant : Tenant
  pub portal_flag : Bool

-- The exceptions of apps/tenancy/exceptions.py, and any other that a block raises.
pub data TenantError : Type 0 where
  scope_error : TenantError
  escalation_error : TenantError
  block_error : TenantError

-- The defaults of the two variables.
abbrev pub fresh : Context
fresh = record { tenant = unset; portal_flag = false }

-- A block under a `with` or `try`: it ends in a value or raises, and may leave the variables in any
-- state.
abbrev pub Block : Type 0 → Type 0
Block A = Context → Result TenantError A × Context

abbrev pub is_portal_plane : Plane → Context → Bool
is_portal_plane portal_process c = true
is_portal_plane operator_plane c = c.portal_flag

abbrev pub current_tenant : Context → Tenant
current_tenant c = c.tenant

-- The token is the tenant that was bound before.
abbrev pub bind_tenant : ℕ → Context → Tenant × Context
bind_tenant organization c = (c.tenant, record c { tenant = bound organization })

abbrev refuse_if : Bool → Context → Result TenantError Tenant × Context
refuse_if true c = (err escalation_error, c)
refuse_if false c = (ok c.tenant, record c { tenant = operator_all })

unfoldable pub bind_operator_all : Plane → Context → Result TenantError Tenant × Context
bind_operator_all plane c = refuse_if (is_portal_plane plane c) c

abbrev pub reset : Tenant → Context → Context
reset token c = record c { tenant = token }

-- `finally: reset(token)`
abbrev pub finally_reset :
    {A : Type 0} → Tenant → Result TenantError A × Context → Result TenantError A × Context
finally_reset token (r, c) = (r, reset token c)

unfoldable pub portal_plane : {A : Type 0} → Block A → Block A
portal_plane body c =
    let (r, c') = body (record c { portal_flag = true }) in
    (r, record c' { portal_flag = c.portal_flag })

unfoldable pub scoped : {A : Type 0} → ℕ → Block A → Block A
scoped organization body c =
    let (token, c') = bind_tenant organization c in finally_reset token (body c')

abbrev pub run_bound :
    {A : Type 0} → Result TenantError Tenant × Context → Block A → Result TenantError A × Context
run_bound (ok token, c) body = finally_reset token (body c)
run_bound (err e, c) body = (err e, c)

unfoldable pub operator_scope : {A : Type 0} → Plane → Block A → Block A
unfolding bind_operator_all
operator_scope plane body c = run_bound (bind_operator_all plane c) body
