-- ===== src/Tenancy/Tests.antt =====
-- Runs of apps/tenancy at concrete requests.
use mathlib.Core.List.{Memᴰ}
use trend_engine_backend.Base.{ℕ, ◌≡◌, ◌≢◌, refl, ◌↔◌, Option, none, some, List, [], ◌∷◌, ok}
use trend_engine_backend.Tenancy.Context.{Tenant, operator_all, bound, Block, fresh}
use trend_engine_backend.Tenancy.Managers.{get_queryset}
use trend_engine_backend.Tenancy.Middleware.{
  Membership, MembershipStatus, OrgStatus, OrgRole, Session, portal_call,
}
use trend_engine_backend.Tenancy.Isolation.{Sees, get_queryset_isolates, Served, portal_call_serves}
use trend_engine_backend.Tenancy.Escalation.{starts, steps, binds, portal_never_operator}

-- Rows as pairs of a key and an organisation.
abbrev rows : List (ℕ × ℕ)
rows = (10, 1) ∷ (11, 2) ∷ (12, 1) ∷ []

get_queryset_isolates_example :
    Memᴰ {A = ℕ × ℕ} (12, 1) ((10, 1) ∷ (12, 1) ∷ [])
    ↔ (Memᴰ {A = ℕ × ℕ} (12, 1) rows × Sees (bound 1) 1)
unfolding get_queryset
get_queryset_isolates_example =
    get_queryset_isolates (λ row. row.1) rows (bound 1) ((10, 1) ∷ (12, 1) ∷ []) (12, 1) refl

abbrev member_of : ℕ → ℕ → MembershipStatus → Membership
member_of user organization status = record {
  org_user = user;
  organization = organization;
  organization_status = OrgStatus.active;
  role = OrgRole.viewer;
  status = status;
}

abbrev table : List Membership
table =
    member_of 7 1 MembershipStatus.active
    ∷ member_of 8 2 MembershipStatus.active
    ∷ member_of 7 2 MembershipStatus.invited
    ∷ []

-- The session names organisation 2, where user 7 has no active membership.
abbrev forged : Session
forged = record { portal_org = some 2; scope_organization = none }

abbrev report_tenant : Option Membership → Block Tenant
report_tenant m c = (ok c.tenant, c)

portal_call_serves_example :
    Served table report_tenant 7 fresh (portal_call table report_tenant (some 7) forged fresh)
portal_call_serves_example = portal_call_serves table report_tenant 7 forged fresh

portal_never_operator_example : bound 3 ≢ operator_all
portal_never_operator_example =
    portal_never_operator (record { context = record fresh { tenant = bound 3 }; tokens = _ })
      (steps starts (binds 3))

-- A block that leaves another tenant bound.
abbrev strays : Block Unit
strays c = (ok tt, record c { tenant = bound 9 })

forged_session_is_refused :
    (portal_call table report_tenant (some 9) forged fresh).1.portal_org ≡ none
unfolding portal_call
forged_session_is_refused = refl
