-- ===== src/Tenancy/Isolation.antt =====
-- What the managers of apps/tenancy/managers.py and the binders of apps/tenancy/middleware.py keep
-- apart.
use mathlib.Core.List.{Memᴰ}
use trend_engine_backend.Base.{
  ℕ, true, ◌≡◌, refl, sym, ◌↔◌, inl, inr, Option, none, some, List, [], ◌∷◌, filter, ◌==◌, ==_iff,
  ok, err, arith, subst, Option-cases, mem-filter, find?-eq-some,
}
use trend_engine_backend.Tenancy.Context.{
  Context, Tenant, unset, operator_all, bound, TenantError, scope_error, Block,
}
use trend_engine_backend.Tenancy.Managers.{get_queryset}
use trend_engine_backend.Tenancy.Middleware.{
  Membership, is_active_of, active_memberships, candidate_membership, sole_membership,
  resolve_membership, Session, Reply, viewed, no_active_membership, portal_call, serve_as, flushed,
}

-- Which organisation's rows a query may show under a tenant.
abbrev pub Sees : Tenant → ℕ → Type 0
Sees unset organization = ⊥
Sees operator_all organization = Unit
Sees (bound o) organization = organization ≡ o

module _ {Row : Type 0} (organization_id : Row → ℕ) (rows : List Row) where
  -- A query through the manager that succeeds gives exactly the stored rows that the tenant may
  -- see.
  pub get_queryset_isolates :
      (tenant : Tenant) (seen : List Row) (x : Row)
      → get_queryset organization_id tenant rows ≡ ok seen
      → Memᴰ x seen ↔ (Memᴰ x rows × Sees tenant (organization_id x))
  unfolding get_queryset
  get_queryset_isolates unset seen x h = cc
  get_queryset_isolates operator_all seen x h =
      let e : rows ≡ seen = cc in rw (← e) (λ m. (m, tt), λ m. m.0)
  get_queryset_isolates (bound o) seen x h =
      let e : filter (λ row. organization_id row == o) rows ≡ seen = cc in
      let both = mem-filter (λ row. organization_id row == o) x rows in
      let same = ==_iff (organization_id x) o in
      subst (λ l. Memᴰ x l ↔ (Memᴰ x rows × (organization_id x ≡ o))) e
        (λ m. ((both.0 m).0, same.0 (both.0 m).1), λ m. both.1 (m.0, same.1 m.1))

  -- With nothing bound every query raises `TenantScopeError`, and that is the only way it can fail.
  pub get_queryset-eq-err :
      (tenant : Tenant) (e : TenantError)
      → (get_queryset organization_id tenant rows ≡ err e) ↔ ((tenant ≡ unset) × (e ≡ scope_error))
  unfolding get_queryset
  get_queryset-eq-err unset e = (λ h. (refl, cc), λ h. cc)
  get_queryset-eq-err operator_all e = (λ h. cc, λ h. cc)
  get_queryset-eq-err (bound o) e = (λ h. cc, λ h. cc)

candidate_membership_active :
    (table : List Membership) (user : ℕ) (candidate : Option ℕ) (m : Membership)
    → candidate_membership table user candidate ≡ some m
    → Memᴰ m (active_memberships table user)
candidate_membership_active table user none m h = cc
candidate_membership_active table user (some o) m h =
    (find?-eq-some (λ n. n.organization == o) m (active_memberships table user) h).0

sole_membership_active :
    (ms : List Membership) (s : Session) (m : Membership)
    → (sole_membership ms s).0 ≡ some m
    → Memᴰ m ms
sole_membership_active [] s m h = cc
sole_membership_active (n ∷ []) s m h = let e : n ≡ m = cc in Memᴰ.head (sym e)
sole_membership_active (n ∷ k ∷ ms) s m h = cc

-- Whatever the session names, the membership that a request is bound to is a stored, active one of
-- the request's own user, in an organisation that is not suspended.
pub resolve_membership_active :
    (table : List Membership) (user : ℕ) (s : Session) (m : Membership)
    → (resolve_membership table user s).0 ≡ some m
    → Memᴰ m table × (is_active_of user m ≡ true)
unfolding resolve_membership
resolve_membership_active table user s m h =
    (mem-filter (is_active_of user) m table).0
      (elim (Option-cases (candidate_membership table user s.portal_org)) [
        | inl e ↦ sole_membership_active (active_memberships table user) s m (ground arith)
        | inr (n, e) ↦ candidate_membership_active table user s.portal_org m (ground arith)
      ])

-- What a request of the portal may come to.
pub data Served {A : Type 0} (table : List Membership) (view : Option Membership → Block A)
    (user : ℕ) (c : Context) (out : Reply A × Session × Context) : Type 0 where
  refused : out ≡ (no_active_membership, flushed, c) → Served table view user c out
  served :
      (m : Membership)
      → Memᴰ m table
      → is_active_of user m ≡ true
      → out.0 ≡ viewed (view (some m) (record c { tenant = bound m.organization })).0
      → out.2.tenant ≡ c.tenant
      → Served table view user c out

module _ {A : Type 0} (table : List Membership) (view : Option Membership → Block A)
    (user : ℕ) where
  serve_as-Served :
      (found : Option Membership × Session) (c : Context)
      → ((m : Membership) → found.0 ≡ some m → Memᴰ m table × (is_active_of user m ≡ true))
      → Served table view user c (serve_as table view found c)
  serve_as-Served (none, s) c h = refused refl
  serve_as-Served (some m, s) c h = served m (h m refl).0 (h m refl).1 refl refl

-- A signed-in portal request either runs the view with the tenant of an active membership of its
-- own user bound, and gives the tenant back however the view ended, or is refused with the session
-- flushed and no view run.
pub portal_call_serves :
    {A : Type 0} (table : List Membership) (view : Option Membership → Block A) (user : ℕ)
    (s : Session) (c : Context)
    → Served table view user c (portal_call table view (some user) s c)
unfolding portal_call
portal_call_serves table view user s c =
    serve_as-Served table view user (resolve_membership table user s) c
      (resolve_membership_active table user s)
