-- ===== src/Outputs/Services.antt =====
-- apps/outputs/services.py, function by function. Each is one transaction.
use trend_engine_backend.Base.{
  ℕ, ◌+◌, Bool, true, false, ◌&&◌, ◌||◌, not, Option, none, some, List, [], ◌∷◌, ◌++◌, map, all,
  any, find?, filter, update_where, max_of, length, ◌==◌, if◌then◌else◌, Text, codes, eq_text,
  is_empty, strip, lower, split,
}
use trend_engine_backend.Store.Rows.{
  Organization, OutputType, OutputState, Output, OutputVersion, Approval, ExpertReview,
  ExpertReviewer, RecordNote, AuditKind, AuditContext, ProfileVersion,
}
use trend_engine_backend.Store.Database.{
  Env, Action, drafting_error, multiple_objects, ◌>>=◌, ◌>>◌, pure, raise, gets, lift_option,
  raise_when, modify, objects, fresh_pk, audit_event,
}
use trend_engine_backend.Store.Queries.{
  load_output, save_output_state, save_version_state, insert_version,
}

-- `_audit`
abbrev pub audit : AuditKind → Text → ℕ → AuditContext → Action Unit
audit kind actor organization context =
    audit_event
      (record { kind = kind; actor_label = actor; organization = organization; context = context })

-- The parts of a citation that names several versions.
abbrev pub named_citations : Text → List Text
named_citations citation = filter (λ part. not (is_empty part)) (map strip (split b',' citation))

-- `_check_profile_citation`
unfoldable pub check_profile_citation : Env → Organization → Text → Action Unit
check_profile_citation env organization [] = pure tt
check_profile_citation env organization (c ∷ cs) = do
  profiles ← objects (λ p. p.organization) (λ db. db.profiles) env
  let stored = filter (λ (p : ProfileVersion). p.organization == organization.pk) profiles
  raise_when
      (not (
        all (λ name. any (λ (p : ProfileVersion). eq_text p.citation name) stored)
          (named_citations (c ∷ cs))))
      drafting_error

-- What `draft` is called with, besides the tenant.
pub record DraftArgs : Type 0 where
  pub type : OutputType
  pub title : Text
  pub sections : List Text
  pub summary : Text
  pub actor_label : Text
  pub client_profile_version : Text
  pub domain_pack_version : Text
  pub is_illustrative : Bool
  pub recommendation : Option ℕ

-- The `defaults` of the `get_or_create`.
abbrev pub new_output : Organization → DraftArgs → ℕ → Output
new_output organization args pk = record {
  pk = pk;
  organization = organization.pk;
  type = args.type;
  title = args.title;
  state = OutputState.drafting;
  client_profile_version = args.client_profile_version;
  domain_pack_version = args.domain_pack_version;
  is_illustrative = args.is_illustrative || organization.is_fixture;
  recommendation = args.recommendation;
}

abbrev insert_output : Output → Action (Output × Bool)
insert_output o db = pure (o, true) (record db { outputs = db.outputs ++ o ∷ [] })

abbrev pub get_or_create : Organization → DraftArgs → List Output → Action (Output × Bool)
get_or_create organization args [] = do
  pk ← fresh_pk
  insert_output (new_output organization args pk)
get_or_create organization args (o ∷ []) = pure (o, false)
get_or_create organization args (o ∷ p ∷ os) = raise multiple_objects

abbrev pub same_key : Option ℕ → Option ℕ → Bool
same_key none none = true
same_key none (some b) = false
same_key (some a) none = false
same_key (some a) (some b) = a == b

abbrev pub is_given : Option ℕ → Bool
is_given none = false
is_given (some a) = true

-- `output.recommendation = recommendation; output.save(update_fields=["recommendation"])`
abbrev pub attach_recommendation : Output → Option ℕ → Action Unit
attach_recommendation output recommendation =
    if is_given recommendation && not (same_key output.recommendation recommendation)
    then modify (λ db. record db {
      outputs =
          update_where (λ (o : Output). o.pk == output.pk)
            (λ o. record o { recommendation = recommendation }) db.outputs;
    })
    else pure tt

-- `(previous.number + 1) if previous else 1`, for the version of the greatest number.
abbrev pub next_number : List OutputVersion → ℕ
next_number versions = max_of (λ v. v.number) versions + 1

-- `draft`
unfoldable pub draft : Env → Organization → DraftArgs → Action OutputVersion
unfolding check_profile_citation insert_version
draft env organization args = do
  raise_when (is_empty args.sections) drafting_error
  check_profile_citation env organization args.client_profile_version
  outputs ← objects (λ o. o.organization) (λ db. db.outputs) env
  (output, created) ← get_or_create organization args (
      filter (λ (o : Output). (o.organization == organization.pk) && eq_text o.title args.title)
        outputs)
  attach_recommendation output args.recommendation
  visible ← objects (λ v. v.organization) (λ db. db.versions) env
  let number = next_number (filter (λ (v : OutputVersion). v.output == output.pk) visible)
  pk ← fresh_pk
  let version : OutputVersion = record {
    pk = pk;
    organization = organization.pk;
    output = output.pk;
    number = number;
    summary = args.summary;
    body = args.sections;
    state = OutputState.draft;
    created_by_label = args.actor_label;
  }
  insert_version version
  save_output_state output.pk OutputState.draft
  audit AuditKind.config args.actor_label organization.pk
      (AuditContext.drafted output.pk number (length args.sections) created)
  pure version

abbrev pub is_published : OutputState → Bool
is_published OutputState.published = true
is_published _ = false

-- `approve`, on a version as the caller holds it.
unfoldable pub approve : Env → OutputVersion → Text → Text → Action Approval
approve env version actor stage = do
  raise_when (is_published version.state) drafting_error
  objects (λ a. a.organization) (λ db. db.approvals) env
  let approval : Approval = record {
    organization = version.organization;
    version = version.pk;
    stage = stage;
    approver_label = actor;
  }
  modify (λ db. record db { approvals = db.approvals ++ approval ∷ [] })
  save_version_state version.pk OutputState.approved
  output ← load_output version.output
  save_output_state output.pk OutputState.approved
  audit AuditKind.approval actor version.organization
      (AuditContext.approved output.pk version.number stage)
  pure approval

-- `name__iexact`
abbrev pub iexact : Text → Text → Bool
iexact a b = eq_text (lower a) (lower b)

abbrev pub or_default : Text → Text → Text
or_default [] d = d
or_default (c ∷ cs) d = c ∷ cs

-- Whether the person recording the sign-off is the reviewer.
abbrev pub is_self_review : Text → ExpertReviewer → Bool
is_self_review actor reviewer =
    let who = lower (strip actor) in
    not (is_empty who) && (eq_text who (lower reviewer.email) || eq_text who (lower reviewer.name))

-- `record_expert_signoff`
unfoldable pub record_expert_signoff :
    Env → Output → Text → Text → Text → Text → Action ExpertReview
record_expert_signoff env output reviewer_label actor discipline note = do
  let name = strip reviewer_label
  raise_when (is_empty name) drafting_error
  reviewers ← gets (λ db. db.reviewers)
  reviewer ←
      lift_option drafting_error
        (find? (λ (r : ExpertReviewer). iexact r.name name && r.is_active) reviewers)
  raise_when (is_self_review actor reviewer) drafting_error
  objects (λ r. r.organization) (λ db. db.reviews) env
  let review : ExpertReview = record {
    organization = output.organization;
    output = output.pk;
    reviewer_label = reviewer.name ++ (codes ", " ++ reviewer.qualification);
    discipline = or_default discipline (codes "Scientific / legal claims");
    signed_off_at = some env.now;
    note = note;
  }
  modify (λ db. record db { reviews = db.reviews ++ review ∷ [] })
  audit AuditKind.review (or_default actor reviewer.email) output.organization
      (AuditContext.signed_off output.pk review.discipline reviewer.name reviewer.email)
  pure review

-- `add_record_note`
unfoldable pub add_record_note : Env → Output → Text → Text → Action RecordNote
add_record_note env output words author = do
  raise_when (is_empty (strip words)) drafting_error
  raise_when (is_empty (strip author)) drafting_error
  objects (λ n. n.organization) (λ db. db.notes) env
  let note : RecordNote = record {
    organization = output.organization;
    output = output.pk;
    body = strip words;
    author_label = strip author;
  }
  modify (λ db. record db { notes = db.notes ++ note ∷ [] })
  audit AuditKind.review author output.organization (AuditContext.noted output.pk)
  pure note
