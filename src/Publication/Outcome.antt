-- ===== src/Publication/Outcome.antt =====
-- What a successful `publish` and a successful `unpublish` of apps/publication/services.py have done
-- to the tables, and when `publish` refuses.
use trend_engine_backend.Base.{
  any-filter, Result, ℕ, Bool, true, false, ◌≡◌, List, [], ◌∷◌, ◌++◌, arith, some, find?, ok, err,
  Text, update_where, ◌==◌, any, inl, inr, Option-cases,
}
use trend_engine_backend.Tenancy.Context.{Tenant, TenantError, unset, operator_all, bound}
use trend_engine_backend.Tenancy.Managers.{get_queryset}
use trend_engine_backend.Store.Rows.{
  Organization, Output, OutputState, OutputVersion, Publication, ExpertReview,
  requires_expert_review,
}
use trend_engine_backend.Store.Database.{Database, Env}
use trend_engine_backend.Store.Queries.{is_live_for, with_version_state}
use trend_engine_backend.Publication.Gate.{
  publish, superseded, is_incumbent, is_approved, is_sign_off_of, snapshot,
}

-- The facts of a publication that went through.
pub record Published (env : Env) (version : OutputVersion) (organization : Organization)
    (actor : Text) (db : Database) (p : Publication) (db' : Database) : Type 0 where
  pub output : Output
  pub found : find? (λ o. o.pk == version.output) db.outputs ≡ some output
  pub approved : is_approved version.state ≡ true
  pub signed :
      requires_expert_review output.type ≡ true → any (is_sign_off_of output.pk) db.reviews ≡ true
  pub row : p ≡ snapshot version output organization actor db.next_pk
  pub free :
      any
        (is_live_for organization.pk output.pk)
        (update_where (is_incumbent env output.pk) (superseded env.now actor) db.publications)
      ≡ false
  pub publications :
      db'.publications
      ≡ update_where (is_incumbent env output.pk) (superseded env.now actor) db.publications
        ++ p ∷ []
  pub versions :
      db'.versions
      ≡ update_where
          (λ v. v.pk == version.pk)
          (with_version_state OutputState.published)
          db.versions
  pub approvals : db'.approvals ≡ db.approvals
  pub reviews : db'.reviews ≡ db.reviews

abbrev any_visible : {Row : Type 0} → (Row → Bool) → Result TenantError (List Row) → Bool
any_visible p (ok rows) = any p rows
any_visible p (err e) = false

-- A row that the manager shows is stored.
any-get_queryset :
    {Row : Type 0} (organization_id : Row → ℕ) (p : Row → Bool) (tenant : Tenant) (rows : List Row)
    → any_visible p (get_queryset organization_id tenant rows) ≡ true
    → any p rows ≡ true
unfolding get_queryset
any-get_queryset organization_id p unset rows h = cc
any-get_queryset organization_id p operator_all rows h = h
any-get_queryset organization_id p (bound o) rows h =
    any-filter p (λ row. organization_id row == o) rows h

pub publish-Published :
    (env : Env) (version : OutputVersion) (organization : Organization) (actor : Text)
    (db : Database) {p : Publication} {db' : Database}
    → publish env version organization actor db ≡ ok (p, db')
    → Published env version organization actor db p db'
unfolding publish
publish-Published env version organization actor db h =
    elim (Option-cases (find? (λ (o : Output). o.pk == version.output) db.outputs)) [
      | inl e ↦ ground arith
      | inr (o, e) ↦ record {
        output = o;
        found = e;
        approved = ground arith;
        signed = λ need. ground (
          arith,
          any-get_queryset (λ (r : ExpertReview). r.organization) (is_sign_off_of o.pk) env.tenant
              db.reviews,
        );
        row = ground arith;
        free = ground arith;
        publications = ground arith;
        versions = ground arith;
        approvals = ground arith;
        reviews = ground arith;
      }
    ]
