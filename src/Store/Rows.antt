-- ===== src/Store/Rows.antt =====
-- The rows of apps/outputs/models.py, apps/publication/models.py, apps/clients/contacts.py and
-- apps/operations/models.py (AuditEvent). A foreign key is the key of the row that it names; a
-- moment is a number of seconds; a section of a body and a rendered file are texts.
use trend_engine_backend.Base.{ℕ, Bool, true, false, Option, List, Text, codes}

-- `OutputType`
pub data OutputType : Type 0 where
  trend_brief content_queue content_brief product_memo research_alert visibility_benchmark :
      OutputType

-- `OutputState`
pub data OutputState : Type 0 where
  drafting draft review_ready approved published delivered archived : OutputState

-- `self.type in EXPERT_REVIEW_REQUIRED`
unfoldable pub requires_expert_review : OutputType → Bool
requires_expert_review OutputType.trend_brief = true
requires_expert_review OutputType.content_brief = true
requires_expert_review OutputType.product_memo = true
requires_expert_review OutputType.research_alert = true
requires_expert_review OutputType.content_queue = false
requires_expert_review OutputType.visibility_benchmark = false

-- `get_type_display()`
unfoldable pub type_display : OutputType → Text
type_display OutputType.trend_brief = codes "Trend intelligence brief"
type_display OutputType.content_queue = codes "Monthly content queue"
type_display OutputType.content_brief = codes "Content brief / draft"
type_display OutputType.product_memo = codes "Product / opportunity memo"
type_display OutputType.research_alert = codes "Research alert"
type_display OutputType.visibility_benchmark = codes "Visibility benchmark"

-- `Organization`, as the services read it.
pub record Organization : Type 0 where
  pub pk : ℕ
  pub name : Text
  pub is_fixture : Bool

pub record Output : Type 0 where
  pub pk : ℕ
  pub organization : ℕ
  pub type : OutputType
  pub title : Text
  pub state : OutputState
  pub client_profile_version : Text
  pub domain_pack_version : Text
  pub is_illustrative : Bool
  pub recommendation : Option ℕ

pub record OutputVersion : Type 0 where
  pub pk : ℕ
  pub organization : ℕ
  pub output : ℕ
  pub number : ℕ
  pub summary : Text
  pub body : List Text
  pub state : OutputState
  pub created_by_label : Text

pub record Approval : Type 0 where
  pub organization : ℕ
  pub version : ℕ
  pub stage : Text
  pub approver_label : Text

pub record ExpertReview : Type 0 where
  pub organization : ℕ
  pub output : ℕ
  pub reviewer_label : Text
  pub discipline : Text
  pub signed_off_at : Option ℕ
  pub note : Text

pub record ExpertReviewer : Type 0 where
  pub name : Text
  pub qualification : Text
  pub email : Text
  pub is_active : Bool

pub record RecordNote : Type 0 where
  pub organization : ℕ
  pub output : ℕ
  pub body : Text
  pub author_label : Text

pub record ExportArtifact : Type 0 where
  pub organization : ℕ
  pub version : ℕ
  pub format : Text
  pub filename : Text
  pub byte_size : ℕ
  pub sha256 : Text
  pub was_draft : Bool
  pub created_by_label : Text

-- `Publication`, with its frozen snapshot.
pub record Publication : Type 0 where
  pub pk : ℕ
  pub organization : ℕ
  pub output : ℕ
  pub version : ℕ
  pub version_number : ℕ
  pub type : OutputType
  pub type_label : Text
  pub title : Text
  pub summary : Text
  pub body : List Text
  pub published_by_label : Text
  pub unpublished_at : Option ℕ
  pub unpublished_by_label : Text
  pub unpublished_reason : Text
  pub notified_at : Option ℕ

pub record Delivery : Type 0 where
  pub pk : ℕ
  pub organization : ℕ
  pub publication : ℕ
  pub recipients : List Text
  pub formats : List Text
  pub note : Text
  pub sent_by_label : Text

-- `ClientContact`, as `is_client_contact` reads it.
pub record ClientContact : Type 0 where
  pub organization : ℕ
  pub email : Text

-- A stored `ClientProfileVersion`, by its citation.
pub record ProfileVersion : Type 0 where
  pub organization : ℕ
  pub citation : Text

-- `AuditEvent.Kind`, the kinds that these services write.
pub data AuditKind : Type 0 where
  config approval review publication export : AuditKind

-- What an audit event is about: its `context`. The sentence in `message` repeats it.
pub data AuditContext : Type 0 where
  drafted : (output version sections : ℕ) (new_output : Bool) → AuditContext
  approved : (output version : ℕ) (stage : Text) → AuditContext
  signed_off : (output : ℕ) (discipline reviewer reviewer_email : Text) → AuditContext
  noted : (output : ℕ) → AuditContext
  published : (output version publication : ℕ) → AuditContext
  unpublished : (publication : ℕ) (reason : Text) (delivered_to : List Text) → AuditContext
  sent : (publication delivery : ℕ) (formats recipients : List Text) → AuditContext
  reviewed : (output version : ℕ) (formats recipients : List Text) (was_draft : Bool) → AuditContext

pub record AuditEvent : Type 0 where
  pub kind : AuditKind
  pub actor_label : Text
  pub organization : ℕ
  pub context : AuditContext

-- What a transaction does outside the tables: a signal sent, or a call that waits for the commit.
pub data Effect : Type 0 where
  published_signal : (publication : ℕ) → Effect
  unpublished_signal : (publication : ℕ) (reason : Text) → Effect
  withdrawal_email : (publication : ℕ) → Effect
  delivery_email : (delivery : Option ℕ) (recipients : List Text) → Effect
