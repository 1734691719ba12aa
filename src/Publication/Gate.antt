-- ===== src/Publication/Gate.antt =====
-- apps/publication/services.py, function by function. `publish` and `unpublish` are one transaction
-- each.
use trend_engine_backend.Base.{
  ℕ, Bool, true, false, ◌&&◌, not, Option, none, some, List, [], ◌∷◌, ◌++◌, any, find?, filter,
  update_where, ◌==◌, is_some, if◌then◌else◌, Text, codes, eq_text,
}
use trend_engine_backend.Tenancy.Managers.{sees}
use trend_engine_backend.Store.Rows.{
  Organization, OutputState, Output, OutputVersion, ExpertReview, Publication, Delivery, AuditKind,
  AuditContext, Effect, requires_expert_review, type_display,
}
use trend_engine_backend.Store.Database.{
  Env, Action, not_approved, expert_review_missing, ◌>>=◌, ◌>>◌, pure, raise_when, modify, objects,
  fresh_pk, emit,
}
use trend_engine_backend.Store.Queries.{
  load_output, save_output_state, save_version_state, is_live, insert_publication,
}
use trend_engine_backend.Outputs.Services.{audit}

abbrev pub is_approved : OutputState → Bool
is_approved OutputState.approved = true
is_approved _ = false

-- `output.expert_reviews.filter(signed_off_at__isnull=False).exists()`
abbrev pub is_sign_off_of : ℕ → ExpertReview → Bool
is_sign_off_of output r = (r.output == output) && is_some r.signed_off_at

abbrev require_sign_off : Env → Output → Bool → Action Unit
require_sign_off env output false = pure tt
require_sign_off env output true = do
  reviews ← objects (λ r. r.organization) (λ db. db.reviews) env
  raise_when (not (any (is_sign_off_of output.pk) reviews)) expert_review_missing

-- The incumbents that the update of step 3 finds.
abbrev pub is_incumbent : Env → ℕ → Publication → Bool
is_incumbent env output p = sees env.tenant p.organization && ((p.output == output) && is_live p)

abbrev pub superseded : ℕ → Text → Publication → Publication
superseded now actor p = record p {
  unpublished_at = some now;
  unpublished_by_label = actor;
  unpublished_reason = codes "Superseded by a newer published version";
}

abbrev retire_incumbents : Env → ℕ → Text → Action Unit
retire_incumbents env output actor = do
  objects (λ p. p.organization) (λ db. db.publications) env
  modify (λ db. record db {
    publications =
        update_where (is_incumbent env output) (superseded env.now actor) db.publications;
  })

-- The publication with its frozen snapshot.
abbrev pub snapshot : OutputVersion → Output → Organization → Text → ℕ → Publication
snapshot version output organization actor pk = record {
  pk = pk;
  organization = organization.pk;
  output = output.pk;
  version = version.pk;
  version_number = version.number;
  type = output.type;
  type_label = type_display output.type;
  title = output.title;
  summary = version.summary;
  body = version.body;
  published_by_label = actor;
  unpublished_at = none;
  unpublished_by_label = [];
  unpublished_reason = [];
  notified_at = none;
}

-- `publish`
unfoldable pub publish : Env → OutputVersion → Organization → Text → Action Publication
unfolding insert_publication
publish env version organization actor = do
  output ← load_output version.output
  raise_when (not (is_approved version.state)) not_approved
  require_sign_off env output (requires_expert_review output.type)
  retire_incumbents env output.pk actor
  pk ← fresh_pk
  let publication = snapshot version output organization actor pk
  insert_publication publication
  save_output_state output.pk OutputState.published
  save_version_state version.pk OutputState.published
  audit AuditKind.publication actor organization.pk
      (AuditContext.published output.pk version.number pk)
  emit (Effect.published_signal pk)
  pure publication

-- The loop of `delivered_recipients` in delivery.py.
abbrev pub add_new : List Text → List Text → List Text
add_new seen [] = seen
add_new seen (a ∷ as') = add_new (if any (eq_text a) seen then seen else seen ++ a ∷ []) as'

unfoldable pub collect_recipients : List Text → List Delivery → List Text
collect_recipients seen [] = seen
collect_recipients seen (d ∷ ds) = collect_recipients (add_new seen d.recipients) ds

unfoldable pub delivered_recipients : Env → Publication → Action (List Text)
unfolding collect_recipients
delivered_recipients env publication = do
  deliveries ← objects (λ d. d.organization) (λ db. db.deliveries) env
  pure (
      collect_recipients [] (filter (λ (d : Delivery). d.publication == publication.pk) deliveries))

abbrev pub withdrawn : ℕ → Text → Text → Publication → Publication
withdrawn now actor reason p = record p {
  unpublished_at = some now;
  unpublished_by_label = actor;
  unpublished_reason = reason;
}

withdraw : Env → Publication → Text → Text → Action Unit
unfolding delivered_recipients
withdraw env publication actor reason = do
  modify (λ db. record db {
    publications =
        update_where (λ (p : Publication). p.pk == publication.pk) (withdrawn env.now actor reason)
          db.publications;
  })
  output ← load_output publication.output
  save_output_state output.pk OutputState.approved
  delivered_to ← delivered_recipients env publication
  audit AuditKind.publication actor publication.organization
      (AuditContext.unpublished publication.pk reason delivered_to)
  emit (Effect.unpublished_signal publication.pk reason)
  emit (Effect.withdrawal_email publication.pk)

-- `unpublish`, on a publication as the caller holds it.
unfoldable pub unpublish : Env → Publication → Text → Text → Action Unit
unfolding withdraw
unpublish env publication actor reason =
    if is_live publication then withdraw env publication actor reason else pure tt

abbrev pub in_organization : Option ℕ → ℕ → Bool
in_organization none organization = true
in_organization (some o) organization = organization == o

-- `published_for`
unfoldable pub published_for : Env → Option ℕ → Action (List Publication)
published_for env organization = do
  visible ← objects (λ p. p.organization) (λ db. db.publications) env
  pure (filter (λ p. is_live p && in_organization organization p.organization) visible)

-- `publication_by_id`
unfoldable pub publication_by_id : Env → ℕ → Action (Option Publication)
unfolding published_for
publication_by_id env pk = do
  live ← published_for env none
  pure (find? (λ (p : Publication). p.pk == pk) live)

-- The values of `_CLIENT_FACING_STATE`.
pub data ClientState : Type 0 where
  in_preparation published delivered : ClientState

-- `_CLIENT_FACING_STATE.get(output.state)`
unfoldable pub client_facing_state : OutputState → Option ClientState
client_facing_state OutputState.drafting = some in_preparation
client_facing_state OutputState.draft = some in_preparation
client_facing_state OutputState.review_ready = some in_preparation
client_facing_state OutputState.approved = some in_preparation
client_facing_state OutputState.published = some ClientState.published
client_facing_state OutputState.delivered = some ClientState.delivered
client_facing_state OutputState.archived = none
