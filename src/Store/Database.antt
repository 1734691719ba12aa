-- ===== src/Store/Database.antt =====
-- The database of these services, and a transaction: `@transaction.atomic` keeps nothing of what a
-- raising call wrote, so an exception carries no state.
use trend_engine_backend.Base.{
  ℕ, ◌+◌, Bool, true, false, Option, none, some, List, [], ◌∷◌, ◌++◌, Result, ok, err,
}
use trend_engine_backend.Tenancy.Context.{Tenant, TenantError}
use trend_engine_backend.Tenancy.Managers.{get_queryset}
use trend_engine_backend.Store.Rows.{
  Output, OutputVersion, Approval, ExpertReview, ExpertReviewer, RecordNote, ExportArtifact,
  Publication, Delivery, ClientContact, ProfileVersion, AuditEvent, Effect,
}

pub record Database : Type 0 where
  pub outputs : List Output
  pub versions : List OutputVersion
  pub approvals : List Approval
  pub reviews : List ExpertReview
  pub reviewers : List ExpertReviewer
  pub notes : List RecordNote
  pub artifacts : List ExportArtifact
  pub publications : List Publication
  pub deliveries : List Delivery
  pub contacts : List ClientContact
  pub profiles : List ProfileVersion
  pub audit : List AuditEvent
  pub effects : List Effect
  -- the next primary key
  pub next_pk : ℕ

abbrev pub empty : Database
empty = record {
  outputs = [];
  versions = [];
  approvals = [];
  reviews = [];
  reviewers = [];
  notes = [];
  artifacts = [];
  publications = [];
  deliveries = [];
  contacts = [];
  profiles = [];
  audit = [];
  effects = [];
  next_pk = 1;
}

-- What the services raise: `DraftingError`, `NotApproved`, `ExpertReviewMissing`, `DeliveryError`,
-- the database's `IntegrityError` and `DoesNotExist`,
-- `MultipleObjectsReturned`, the manager's errors.
pub data Error : Type 0 where
  drafting_error : Error
  not_approved : Error
  expert_review_missing : Error
  delivery_error : Error
  integrity_error : Error
  does_not_exist : Error
  multiple_objects : Error
  tenant_error : TenantError → Error

-- What a call reads besides the tables: the bound tenant and the clock.
pub record Env : Type 0 where
  pub tenant : Tenant
  pub now : ℕ

abbrev pub Action : Type 0 → Type 0
Action A = Database → Result Error (A × Database)

abbrev pub bind_result :
    {A B : Type 0} → Result Error (A × Database) → (A → Action B) → Result Error (B × Database)
bind_result (ok (a, db)) f = f a db
bind_result (err e) f = err e

infixl 5 ◌>>=◌ ◌>>◌
abbrev pub ◌>>=◌ : {A B : Type 0} → Action A → (A → Action B) → Action B
◌>>=◌ m f db = bind_result (m db) f

abbrev pub ◌>>◌ : {A B : Type 0} → Action A → Action B → Action B
m >> k = m >>= λ _. k

module _ {A : Type 0} where
  abbrev pub pure : A → Action A
  pure a db = ok (a, db)

  abbrev pub raise : Error → Action A
  raise e db = err e

  abbrev pub gets : (Database → A) → Action A
  gets f db = ok (f db, db)

  abbrev pub lift_option : Error → Option A → Action A
  lift_option e none db = err e
  lift_option e (some a) db = ok (a, db)

  abbrev pub lift_scope : Result TenantError A → Action A
  lift_scope (ok a) db = ok (a, db)
  lift_scope (err e) db = err (tenant_error e)

abbrev pub modify : (Database → Database) → Action Unit
modify f db = ok (tt, f db)

abbrev pub raise_when : Bool → Error → Action Unit
raise_when true e db = err e
raise_when false e db = ok (tt, db)

-- The state after the call: what was there before where it raised.
abbrev pub commit_result : {A : Type 0} → Database → Result Error (A × Database) → Database
commit_result db (ok (a, db')) = db'
commit_result db (err e) = db

abbrev pub commit : {A : Type 0} → Action A → Database → Database
commit m db = commit_result db (m db)

-- `Model.objects` of a tenant-scoped model, read under the bound tenant.
abbrev pub objects : {Row : Type 0} → (Row → ℕ) → (Database → List Row) → Env → Action (List Row)
objects organization_id table env db =
    lift_scope (get_queryset organization_id env.tenant (table db)) db

-- A new row's primary key.
abbrev pub fresh_pk : Action ℕ
fresh_pk db = ok (db.next_pk, record db { next_pk = db.next_pk + 1 })

abbrev pub audit_event : AuditEvent → Action Unit
audit_event e = modify λ db. record db { audit = db.audit ++ e ∷ [] }

abbrev pub emit : Effect → Action Unit
emit e = modify λ db. record db { effects = db.effects ++ e ∷ [] }
