-- ===== src/Publication/Delivery.antt =====
-- apps/publication/delivery.py: `deliver` and `send_for_review`, each one transaction. The renderers
-- are given by the formats that are available and a function; `available` and `render` of
-- apps/outputs/exports read no table.
use trend_engine_backend.Base.{
  ℕ, Bool, not, none, some, List, [], ◌∷◌, ◌++◌, map, any, filter, update_where, ◌==◌, Text,
  eq_text, is_empty,
}
use trend_engine_backend.Store.Rows.{
  OutputState, OutputVersion, RecordNote, ExportArtifact, type_display, Publication, Delivery,
  AuditKind, AuditContext, Effect,
}
use trend_engine_backend.Store.Database.{
  Env, Action, delivery_error, ◌>>=◌, ◌>>◌, pure, gets, raise_when, modify, objects, fresh_pk, emit,
}
use trend_engine_backend.Store.Queries.{
  load_output, load_version, save_output_state, save_version_state, is_live,
}
use trend_engine_backend.Outputs.Services.{audit, is_published}
use trend_engine_backend.Publication.Recipients.{Recipient, recipients_for, emails}

-- `Rendered`, by what an artifact records of it.
pub record Rendered : Type 0 where
  pub format : Text
  pub filename : Text
  pub byte_size : ℕ
  pub sha256 : Text

-- `ExportDocument`: what a renderer is given.
pub record Document : Type 0 where
  pub title : Text
  pub type_label : Text
  pub summary : Text
  pub body : List Text
  pub is_draft : Bool
  pub is_illustrative : Bool
  pub corrections : List Text
  pub version_number : ℕ
  pub client_profile_version : Text
  pub domain_pack_version : Text

-- `exports.available()` and `exports.render`.
pub record Exports : Type 0 where
  pub available : List Text
  pub render : Document → Text → Rendered

-- `[note.text for note in output.record_notes.order_by("at")]`
abbrev corrections_of : Env → ℕ → Action (List Text)
corrections_of env output = do
  notes ← objects (λ n. n.organization) (λ db. db.notes) env
  pure (map (λ (n : RecordNote). n.body) (filter (λ (n : RecordNote). n.output == output) notes))

-- `document_for_publication` of apps/publication/exports.py
abbrev pub document_for_publication : Env → Publication → Action Document
document_for_publication env publication = do
  output ← load_output publication.output
  corrections ← corrections_of env output.pk
  pure (record {
    title = publication.title;
    type_label = publication.type_label;
    summary = publication.summary;
    body = publication.body;
    is_draft = not (is_live publication);
    is_illustrative = output.is_illustrative;
    corrections = corrections;
    version_number = publication.version_number;
    client_profile_version = output.client_profile_version;
    domain_pack_version = output.domain_pack_version;
  })

-- `document_for_version` of apps/outputs/exports/adapters.py, with no `is_draft` given.
abbrev pub document_for_version : Env → OutputVersion → Action Document
document_for_version env version = do
  output ← load_output version.output
  corrections ← corrections_of env output.pk
  pure (record {
    title = output.title;
    type_label = type_display output.type;
    summary = version.summary;
    body = version.body;
    is_draft = not (is_published version.state);
    is_illustrative = output.is_illustrative;
    corrections = corrections;
    version_number = version.number;
    client_profile_version = output.client_profile_version;
    domain_pack_version = output.domain_pack_version;
  })

abbrev pub mem_text : Text → List Text → Bool
mem_text a = any (eq_text a)

-- `[fmt for fmt in formats if fmt in exports.available()]`
abbrev pub chosen_formats : Exports → List Text → List Text
chosen_formats exports formats = filter (λ fmt. mem_text fmt exports.available) formats

abbrev pub artifact : OutputVersion → ℕ → Bool → Text → Rendered → ExportArtifact
artifact version organization was_draft actor item = record {
  organization = organization;
  version = version.pk;
  format = item.format;
  filename = item.filename;
  byte_size = item.byte_size;
  sha256 = item.sha256;
  was_draft = was_draft;
  created_by_label = actor;
}

-- `ExportArtifact.objects.bulk_create`
abbrev pub record_artifacts : Env → List ExportArtifact → Action Unit
record_artifacts env items = do
  objects (λ a. a.organization) (λ db. db.artifacts) env
  modify (λ db. record db { artifacts = db.artifacts ++ items })

abbrev pub with_notified_at : ℕ → Publication → Publication
with_notified_at now p = record p { notified_at = some now }

-- `deliver`, on a publication as the caller holds it; `entries` is `OUTPUT_REVIEW_RECIPIENTS`.
unfoldable pub deliver :
    Env → Exports → List Recipient → Publication → List Text → Text → Text → Action Delivery
deliver env exports entries publication formats actor note = do
  raise_when (not (is_live publication)) delivery_error
  contacts ← gets (λ db. db.contacts)
  let recipients = recipients_for contacts entries
  raise_when (is_empty recipients) delivery_error
  let chosen = chosen_formats exports formats
  raise_when (is_empty chosen) delivery_error
  document ← document_for_publication env publication
  let rendered = map (exports.render document) chosen
  version ← load_version publication.version
  record_artifacts env
      (map (artifact version publication.organization document.is_draft actor) rendered)
  objects (λ d. d.organization) (λ db. db.deliveries) env
  pk ← fresh_pk
  let delivery : Delivery = record {
    pk = pk;
    organization = publication.organization;
    publication = publication.pk;
    recipients = emails recipients;
    formats = chosen;
    note = note;
    sent_by_label = actor;
  }
  modify (λ db. record db { deliveries = db.deliveries ++ delivery ∷ [] })
  modify (λ db. record db {
    publications =
        update_where (λ (p : Publication). p.pk == publication.pk) (with_notified_at env.now)
          db.publications;
  })
  output ← load_output publication.output
  save_output_state output.pk OutputState.delivered
  save_version_state version.pk OutputState.delivered
  audit AuditKind.export actor publication.organization
      (AuditContext.sent publication.pk pk chosen (emails recipients))
  emit (Effect.delivery_email (some pk) (emails recipients))
  pure delivery

-- `send_for_review`
unfoldable pub send_for_review :
    Env → Exports → List Recipient → OutputVersion → List Text → Text → Action (List Text)
send_for_review env exports entries version formats actor = do
  contacts ← gets (λ db. db.contacts)
  let recipients = recipients_for contacts entries
  raise_when (is_empty recipients) delivery_error
  let chosen = chosen_formats exports formats
  raise_when (is_empty chosen) delivery_error
  document ← document_for_version env version
  let rendered = map (exports.render document) chosen
  record_artifacts env
      (map (artifact version version.organization document.is_draft actor) rendered)
  output ← load_output version.output
  audit AuditKind.export actor version.organization
      (AuditContext.reviewed output.pk version.number chosen (emails recipients) document.is_draft)
  emit (Effect.delivery_email none (emails recipients))
  pure (emails recipients)
