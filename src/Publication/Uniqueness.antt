-- ===== src/Publication/Uniqueness.antt =====
-- At most one live publication for each output and tenant, whatever the gate of
-- apps/publication/services.py is asked to do, and under whatever tenant.
use mathlib.Core.List.Memᴰ
use mathlib.Core.List.{Memᴰ}
use trend_engine_backend.Base.{
  ℕ, ◌≤◌, Bool, true, false, ◌≡◌, refl, List, [], ◌∷◌, ◌++◌, count_of, count_of-append, arith,
  count_of-eq-zero, count_of-update_where-le, Text, update_where, ◌==◌, any, inl, inr, Result-cases,
  ok, ap, sym, err, filter, subst, find?, some, ◌&&◌,
}
use trend_engine_backend.Tenancy.Context.{Tenant, unset, operator_all, bound}
use trend_engine_backend.Tenancy.Managers.{sees, get_queryset}
use trend_engine_backend.Store.Rows.{
  Organization, Output, OutputVersion, Publication, ExpertReview, requires_expert_review,
}
use trend_engine_backend.Store.Database.{Database, Env, Error, commit}
use trend_engine_backend.Store.Queries.{is_live, is_live_for}
use trend_engine_backend.Publication.Outcome.{publish-Published}
use trend_engine_backend.Publication.Gate.{
  publish, superseded, is_incumbent, snapshot, is_approved, is_sign_off_of,
}

-- What the index `uniq_live_publication_per_output` promises of the table.
abbrev pub IsLiveUnique : List Publication → Type 0
IsLiveUnique publications =
    (organization output : ℕ) → count_of (is_live_for organization output) publications ≤ 1

-- An update that makes no row live which was not.
pub IsLiveUnique-update :
    (q : Publication → Bool) (f : Publication → Publication) (publications : List Publication)
    → ((organization output : ℕ) (p : Publication)
        → is_live_for organization output (f p) ≡ true
        → is_live_for organization output p ≡ true)
    → IsLiveUnique publications
    → IsLiveUnique (update_where q f publications)
IsLiveUnique-update q f publications keeps h o k = omega (
  arith,
  h o k,
  count_of-update_where-le (is_live_for o k) q f publications (λ p _ e. keeps o k p e),
)

retire-IsLiveUnique :
    (env : Env) (output now : ℕ) (actor : Text) (publications : List Publication)
    → IsLiveUnique publications
    → IsLiveUnique (update_where (is_incumbent env output) (superseded now actor) publications)
retire-IsLiveUnique env output now actor publications =
    IsLiveUnique-update (is_incumbent env output) (superseded now actor) publications
      (λ o k p e. ground arith)

insert-IsLiveUnique :
    (p : Publication) (publications : List Publication)
    → any (is_live_for p.organization p.output) publications ≡ false
    → IsLiveUnique publications
    → IsLiveUnique (publications ++ p ∷ [])
insert-IsLiveUnique p publications free h o k = grind (
  arith,
  h o k,
  count_of-append (is_live_for o k) publications (p ∷ []),
  count_of-eq-zero (is_live_for p.organization p.output) publications free,
)

-- Publishing, under whichever tenant and whether it goes through or is refused, leaves at most one
-- live publication for each output and organisation, if there was at most one before.
pub publish-IsLiveUnique :
    (env : Env) (version : OutputVersion) (organization : Organization) (actor : Text)
    (db : Database)
    → IsLiveUnique db.publications
    → IsLiveUnique (commit (publish env version organization actor) db).publications
publish-IsLiveUnique env version organization actor db h =
    elim (Result-cases (publish env version organization actor db)) [
      | inl (e, refused) ↦ rw refused h
      | inr ((p, db'), done) ↦
          (let out = publish-Published env version organization actor db done in
            rw (done, out.publications)
              (insert-IsLiveUnique p
                (update_where (is_incumbent env out.output.pk) (superseded env.now actor)
                  db.publications)
                (rw out.row out.free)
                (retire-IsLiveUnique env out.output.pk env.now actor db.publications h)))
    ]

-- A live row put where none was live.
insert_sole :
    (organization output : ℕ) (p : Publication) (publications : List Publication)
    → is_live_for organization output p ≡ true
    → any (is_live_for organization output) publications ≡ false
    → count_of (is_live_for organization output) (publications ++ p ∷ []) ≡ 1
insert_sole organization output p publications live free = ground (
  arith,
  count_of-append (is_live_for organization output) publications (p ∷ []),
  count_of-eq-zero (is_live_for organization output) publications free,
)

-- The new row is a live one of its output for the organisation.
snapshot-live :
    (version : OutputVersion) (o : Output) (organization : Organization) (actor : Text) (pk : ℕ)
    → is_live_for organization.pk o.pk (snapshot version o organization actor pk) ≡ true
snapshot-live version o organization actor pk = ground arith

-- A publication that went through is the one live publication of its output for that organisation.
pub publish_sole_live :
    (env : Env) (version : OutputVersion) (organization : Organization) (actor : Text)
    (db : Database) {p : Publication} {db' : Database}
    → publish env version organization actor db ≡ ok (p, db')
    → (count_of (is_live_for organization.pk p.output) db'.publications ≡ 1)
      × Memᴰ p db'.publications
      × (is_live_for organization.pk p.output p ≡ true)
publish_sole_live env version organization actor db {p} {db'} h =
    let out = publish-Published env version organization actor db h in
    let same : p.output ≡ out.output.pk = ap (λ (x : Publication). x.output) out.row in
    let live : is_live_for organization.pk out.output.pk p ≡ true =
      rw out.row (snapshot-live version out.output organization actor db.next_pk) in
    let rest =
      update_where (is_incumbent env out.output.pk) (superseded env.now actor) db.publications in
    (
      subst (λ k. count_of (is_live_for organization.pk k) db'.publications ≡ 1) (sym same)
          (rw out.publications (insert_sole organization.pk out.output.pk p rest live out.free)),
      rw out.publications (Memᴰ.append_right rest (Memᴰ.head refl)),
      subst (λ k. is_live_for organization.pk k p ≡ true) (sym same) live,
    )

abbrev is_incumbent_under : Tenant → ℕ → Publication → Bool
is_incumbent_under tenant output p =
    sees tenant p.organization && ((p.output == output) && is_live p)

-- A tenant that sees the organisation retires every live row of the output there.
retire_frees :
    (tenant : Tenant) (organization output now : ℕ) (actor : Text) (publications : List Publication)
    → sees tenant organization ≡ true
    → any
        (is_live_for organization output)
        (update_where (is_incumbent_under tenant output) (superseded now actor) publications)
      ≡ false
retire_frees tenant organization output now actor [] h = refl
retire_frees unset organization output now actor (p ∷ ps) h = cc
retire_frees operator_all organization output now actor (p ∷ ps) h =
    ground (arith, retire_frees operator_all organization output now actor ps h)
retire_frees (bound o) organization output now actor (p ∷ ps) h =
    ground (arith, retire_frees (bound o) organization output now actor ps h)

-- A tenant that sees an organisation can query every tenant-scoped table.
queries_pass :
    {Row : Type 0} (organization_id : Row → ℕ) (tenant : Tenant) (organization : ℕ)
    (rows : List Row)
    → sees tenant organization ≡ true
    → (seen : List Row) × (get_queryset organization_id tenant rows ≡ ok seen)
unfolding get_queryset
queries_pass organization_id unset organization rows h = cc
queries_pass organization_id operator_all organization rows h = (rows, refl)
queries_pass organization_id (bound o) organization rows h =
    (filter (λ row. organization_id row == o) rows, refl)

publish_no_error :
    (env : Env) (version : OutputVersion) (organization : Organization) (actor : Text)
    (db : Database) {output : Output} {reviews : List ExpertReview} {e : Error}
    → sees env.tenant organization.pk ≡ true
    → find? (λ o. o.pk == version.output) db.outputs ≡ some output
    → is_approved version.state ≡ true
    → get_queryset (λ (r : ExpertReview). r.organization) env.tenant db.reviews ≡ ok reviews
    → (requires_expert_review output.type ≡ true → any (is_sign_off_of output.pk) reviews ≡ true)
    → ¬ (publish env version organization actor db ≡ err e)
unfolding publish
publish_no_error env version organization actor db {output} tenant found ready visible signed h =
    ground (
      arith,
      queries_pass (λ (p : Publication). p.organization) env.tenant organization.pk db.publications,
      retire_frees env.tenant organization.pk output.pk env.now actor db.publications,
    )

-- Under a tenant that sees the organisation, an approved version of a stored output, with a
-- visible sign-off where its type needs one, is published as its snapshot.
pub publish_succeeds :
    (env : Env) (version : OutputVersion) (organization : Organization) (actor : Text)
    (db : Database) {output : Output} {reviews : List ExpertReview}
    → sees env.tenant organization.pk ≡ true
    → find? (λ o. o.pk == version.output) db.outputs ≡ some output
    → is_approved version.state ≡ true
    → get_queryset (λ (r : ExpertReview). r.organization) env.tenant db.reviews ≡ ok reviews
    → (requires_expert_review output.type ≡ true → any (is_sign_off_of output.pk) reviews ≡ true)
    → (db' : Database) × (publish env version organization actor db
        ≡ ok (snapshot version output organization actor db.next_pk, db'))
publish_succeeds env version organization actor db {output} tenant found approved visible signed =
    elim (Result-cases (publish env version organization actor db)) [
      | inl (e, bad) ↦ absurd (
          publish_no_error env version organization actor db tenant found approved visible signed
            bad)
      | inr ((p, db'), good) ↦
          (let out = publish-Published env version organization actor db good in
            let same : output ≡ out.output = cc (found, out.found) in
            (db', rw (good, out.row, same)))
    ]
