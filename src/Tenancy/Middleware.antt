-- ===== src/Tenancy/Middleware.antt =====
-- apps/tenancy/middleware.py: how a request of either plane gets its tenant, with the membership
-- queries of apps/portal/models.py that it asks. The view is a block: it runs under the context
-- that the middleware has bound.
use trend_engine_backend.Base.{
  ℕ, Bool, true, false, ◌&&◌, Option, none, some, List, [], ◌∷◌, filter, find?, ◌==◌, Result,
}
use trend_engine_backend.Tenancy.Context.{
  Plane, Context, TenantError, Block, bind_tenant, finally_reset, bind_operator_all, run_bound,
}

-- `Organization.Status`
pub data OrgStatus : Type 0 where
  active onboarding suspended fixture : OrgStatus

-- `OrgMembership.Status`
pub data MembershipStatus : Type 0 where
  active invited suspended pending_verification : MembershipStatus

-- `OrgRole`
pub data OrgRole : Type 0 where
  admin viewer : OrgRole

-- A membership beside the status of its organisation, as `select_related` loads it.
pub record Membership : Type 0 where
  pub org_user : ℕ
  pub organization : ℕ
  pub organization_status : OrgStatus
  pub role : OrgRole
  pub status : MembershipStatus

-- `status = ACTIVE`
abbrev pub is_active : MembershipStatus → Bool
is_active MembershipStatus.active = true
is_active _ = false

-- `organization__status__in = ("active", "onboarding", "fixture")`
abbrev pub is_usable : OrgStatus → Bool
is_usable OrgStatus.suspended = false
is_usable _ = true

abbrev pub is_active_of : ℕ → Membership → Bool
is_active_of user m =
    (m.org_user == user) && (is_active m.status && is_usable m.organization_status)

-- `OrgUser.active_memberships`
abbrev pub active_memberships : List Membership → ℕ → List Membership
active_memberships table user = filter (is_active_of user) table

-- `OrgUser.membership_for`
abbrev pub membership_for : List Membership → ℕ → ℕ → Option Membership
membership_for table user organization =
    find? (λ m. m.organization == organization) (active_memberships table user)

-- The keys that the middlewares read from the session.
pub record Session : Type 0 where
  pub portal_org : Option ℕ
  pub scope_organization : Option ℕ

abbrev pub flushed : Session
flushed = record { portal_org = none; scope_organization = none }

-- The fall-back of `_resolve_membership`: the membership of a user who has exactly one.
abbrev pub sole_membership : List Membership → Session → Option Membership × Session
sole_membership (m ∷ []) s = (some m, record s { portal_org = some m.organization })
sole_membership _ s = (none, s)

abbrev pub accept_or :
    Option Membership → Option Membership × Session → Session → Option Membership × Session
accept_or (some m) other s = (some m, s)
accept_or none other s = other

abbrev pub candidate_membership : List Membership → ℕ → Option ℕ → Option Membership
candidate_membership table user none = none
candidate_membership table user (some organization) = membership_for table user organization

unfoldable pub resolve_membership : List Membership → ℕ → Session → Option Membership × Session
resolve_membership table user s =
    accept_or (candidate_membership table user s.portal_org)
      (sole_membership (active_memberships table user) s) s

-- What the middleware hands back: what the view made, or its own 401.
pub data Reply (A : Type 0) : Type 0 where
  viewed : Result TenantError A → Reply A
  no_active_membership : Reply A

-- `PortalTenantMiddleware.__call__`. The user is `none` where the request is anonymous; the view
-- gets the membership that was put on the request.
module _ {A : Type 0} (table : List Membership) (view : Option Membership → Block A) where
  abbrev pub serve_as : Option Membership × Session → Context → Reply A × Session × Context
  serve_as (none, s) c = (no_active_membership, flushed, c)
  serve_as (some m, s) c =
      let (token, c') = bind_tenant m.organization c in
      let (r, c'') = finally_reset token (view (some m) c') in (viewed r, s, c'')

  unfoldable pub portal_call : Option ℕ → Session → Context → Reply A × Session × Context
  unfolding resolve_membership
  portal_call none s c = let (r, c') = view none c in (viewed r, s, c')
  portal_call (some user) s c = serve_as (resolve_membership table user s) c

-- `OperatorTenantMiddleware`: the scope chosen in the session, if that organisation is stored.
abbrev pub selected_organization : List ℕ → Option ℕ → Option ℕ
selected_organization organizations none = none
selected_organization organizations (some pk) = find? (λ o. o == pk) organizations

unfoldable pub operator_call :
    {A : Type 0} → List ℕ → Plane → Block A → Session → Context → Result TenantError A × Context
unfolding bind_operator_all
operator_call organizations plane view s c =
    elim (selected_organization organizations s.scope_organization) [
      | none ↦ run_bound (bind_operator_all plane c) view
      | some o ↦ (let (token, c') = bind_tenant o c in finally_reset token (view c'))
    ]
