-- ===== src/Tenancy/Managers.antt =====
-- apps/tenancy/managers.py: the manager of every tenant-scoped model. A model is a type of rows with
-- the organisation that each carries; a table is the list of its rows.
use trend_engine_backend.Base.{ℕ, Bool, true, false, List, filter, ◌==◌, Result, ok, err}
use trend_engine_backend.Tenancy.Context.{
  Tenant, unset, operator_all, bound, TenantError, scope_error,
}

module _ {Row : Type 0} (organization_id : Row → ℕ) where
  -- `TenantScopedQuerySet.for_organization`
  abbrev pub for_organization : ℕ → List Row → List Row
  for_organization organization rows = filter (λ row. organization_id row == organization) rows

  -- `TenantScopedManager.get_queryset`, which every use of `objects` goes through.
  unfoldable pub get_queryset : Tenant → List Row → Result TenantError (List Row)
  get_queryset unset rows = err scope_error
  get_queryset operator_all rows = ok rows
  get_queryset (bound organization) rows =
      ok (filter (λ row. organization_id row == organization) rows)

  abbrev pub all_tenants : List Row → List Row
  all_tenants rows = rows

-- The same filter as a test on one row, as an `update` through the manager applies it.
abbrev pub sees : Tenant → ℕ → Bool
sees unset organization = false
sees operator_all organization = true
sees (bound o) organization = organization == o
