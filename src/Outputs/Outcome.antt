-- ===== src/Outputs/Outcome.antt =====
-- What each function of apps/outputs/services.py has done to the tables when it succeeds.
use mathlib.Core.List.Memᴰ
use mathlib.Core.List.{Memᴰ}
use trend_engine_backend.Base.{
  ◌≤◌, ◌<◌, true, false, ◌≡◌, List, [], ◌∷◌, ◌++◌, arith, find?, filter, ok, Text, update_where,
  any, ◌==◌, is_some, inl, inr, Option-cases, max_of, is_empty, find?-eq-some, &&-split, strip,
  ◌&&◌, ap, mem-filter, ==_iff,
}
use trend_engine_backend.Tenancy.Managers.{get_queryset}
use trend_engine_backend.Store.Rows.{
  Organization, Output, OutputState, OutputVersion, Approval, ExpertReview, ExpertReviewer,
}
use trend_engine_backend.Store.Database.{Database, Env}
use trend_engine_backend.Store.Queries.{with_version_state, has_number}
use trend_engine_backend.Outputs.Services.{
  DraftArgs, draft, approve, record_expert_signoff, is_published, is_self_review, iexact,
  next_number,
}

-- The facts of a draft that went through.
pub record Drafted (organization : Organization) (args : DraftArgs) (db : Database)
    (v : OutputVersion) (db' : Database) : Type 0 where
  pub sections : is_empty args.sections ≡ false
  pub state : v.state ≡ OutputState.draft
  pub body : v.body ≡ args.sections
  pub owner : v.organization ≡ organization.pk
  pub new_number : any (has_number v.output v.number) db.versions ≡ false
  pub versions : db'.versions ≡ db.versions ++ v ∷ []
  pub approvals : db'.approvals ≡ db.approvals
  pub reviews : db'.reviews ≡ db.reviews
  pub publications : db'.publications ≡ db.publications

pub draft-Drafted :
    (env : Env) (organization : Organization) (args : DraftArgs) (db : Database) {v : OutputVersion}
    {db' : Database}
    → draft env organization args db ≡ ok (v, db')
    → Drafted organization args db v db'
unfolding draft
draft-Drafted env organization args db h = record {
  sections = ground arith;
  state = ground arith;
  body = ground arith;
  owner = ground arith;
  new_number = ground arith;
  versions = ground arith;
  approvals = ground arith;
  reviews = ground arith;
  publications = ground arith;
}

-- The facts of an approval that went through.
pub record Approved (version : OutputVersion) (db : Database) (a : Approval) (db' : Database)
    : Type 0 where
  pub open_version : is_published version.state ≡ false
  pub names : a.version ≡ version.pk
  pub approvals : db'.approvals ≡ db.approvals ++ a ∷ []
  pub versions :
      db'.versions
      ≡ update_where (λ v. v.pk == version.pk) (with_version_state OutputState.approved) db.versions
  pub reviews : db'.reviews ≡ db.reviews
  pub publications : db'.publications ≡ db.publications

pub approve-Approved :
    (env : Env) (version : OutputVersion) (actor stage : Text) (db : Database) {a : Approval}
    {db' : Database}
    → approve env version actor stage db ≡ ok (a, db')
    → Approved version db a db'
unfolding approve
approve-Approved env version actor stage db h = record {
  open_version = ground arith;
  names = ground arith;
  approvals = ground arith;
  versions = ground arith;
  reviews = ground arith;
  publications = ground arith;
}

-- The facts of a sign-off that went through.
pub record SignedOff (output : Output) (actor : Text) (db : Database) (r : ExpertReview)
    (db' : Database) : Type 0 where
  pub reviewer : ExpertReviewer
  pub registered : Memᴰ reviewer db.reviewers
  pub active : reviewer.is_active ≡ true
  pub another : is_self_review actor reviewer ≡ false
  pub signed : is_some r.signed_off_at ≡ true
  pub about : r.output ≡ output.pk
  pub reviews : db'.reviews ≡ db.reviews ++ r ∷ []
  pub versions : db'.versions ≡ db.versions
  pub approvals : db'.approvals ≡ db.approvals
  pub publications : db'.publications ≡ db.publications

pub record_expert_signoff-SignedOff :
    (env : Env) (output : Output) (reviewer_label actor discipline note : Text) (db : Database)
    {r : ExpertReview} {db' : Database}
    → record_expert_signoff env output reviewer_label actor discipline note db ≡ ok (r, db')
    → SignedOff output actor db r db'
unfolding record_expert_signoff
record_expert_signoff-SignedOff env output reviewer_label actor discipline note db h =
    let test = λ (r : ExpertReviewer). iexact r.name (strip reviewer_label) && r.is_active in
    elim (Option-cases (find? test db.reviewers)) [
      | inl e ↦ ground arith
      | inr (reviewer, e) ↦
          (let (registered, passes) = find?-eq-some test reviewer db.reviewers e in
            record {
              reviewer = reviewer;
              registered = registered;
              active =
                  (&&-split (iexact reviewer.name (strip reviewer_label)) reviewer.is_active
                    passes).1;
              another = ground arith;
              signed = ground arith;
              about = ground arith;
              reviews = ground arith;
              versions = ground arith;
              approvals = ground arith;
              publications = ground arith;
            })
    ]

max_of-mem :
    (w : OutputVersion) (vs : List OutputVersion)
    → Memᴰ w vs
    → w.number ≤ max_of (λ (v : OutputVersion). v.number) vs
max_of-mem w [] m = absurd (Memᴰ.not-nil m)
max_of-mem w (v ∷ vs) m = elim (Memᴰ.cases_cons m) [
  | inl e ↦ (let e' : w.number ≡ v.number = ap (λ (x : OutputVersion). x.number) e in omega arith)
  | inr t ↦ omega (arith, max_of-mem w vs t)
]

draft-number :
    (env : Env) (organization : Organization) (args : DraftArgs) (db : Database) {v : OutputVersion}
    {db' : Database} (seen : List OutputVersion)
    → draft env organization args db ≡ ok (v, db')
    → get_queryset (λ (w : OutputVersion). w.organization) env.tenant db.versions ≡ ok seen
    → v.number ≡ next_number (filter (λ (w : OutputVersion). w.output == v.output) seen)
unfolding draft
draft-number env organization args db seen h g = ground arith

-- The number of a draft that went through lies above that of every version of its output that the
-- tenant sees, and no stored version of the output had it.
pub draft_number_above :
    (env : Env) (organization : Organization) (args : DraftArgs) (db : Database) {v : OutputVersion}
    {db' : Database} {seen : List OutputVersion} (w : OutputVersion)
    → draft env organization args db ≡ ok (v, db')
    → get_queryset (λ (u : OutputVersion). u.organization) env.tenant db.versions ≡ ok seen
    → Memᴰ w seen
    → w.output ≡ v.output
    → (w.number < v.number) × (any (has_number v.output v.number) db.versions ≡ false)
draft_number_above env organization args db {v} {db'} {seen} w h g m same =
    let below = max_of-mem w (filter (λ (u : OutputVersion). u.output == v.output) seen) (
      (mem-filter (λ (u : OutputVersion). u.output == v.output) w seen).1
        (m, (==_iff w.output v.output).1 same)) in
    (
      omega (arith, below, draft-number env organization args db seen h g),
      (draft-Drafted env organization args db h).new_number,
    )
