-- ===== src/Publication/Lifecycle.antt =====
-- The life of an output, from apps/outputs/services.py to apps/publication/delivery.py: whatever the
-- operators call, in whatever order, under whatever tenants.
use mathlib.Core.List.{Memᴰ}
use trend_engine_backend.Base.{ℕ, Bool, true, false, ◌≡◌, List, ok, Text, any, ◌==◌}
use trend_engine_backend.Store.Rows.{
  Organization, Output, OutputState, OutputVersion, Approval, ExpertReview, Publication, Delivery,
  requires_expert_review,
}
use trend_engine_backend.Store.Database.{Database, Env}
use trend_engine_backend.Store.Queries.{is_live}
use trend_engine_backend.Outputs.Services.{DraftArgs, draft, approve, record_expert_signoff}
use trend_engine_backend.Publication.Gate.{publish, unpublish, is_sign_off_of}
use trend_engine_backend.Publication.Recipients.{Recipient}
use trend_engine_backend.Publication.Delivery.{Exports, deliver}
use trend_engine_backend.Publication.Uniqueness.{IsLiveUnique}

-- One call that went through. A version or publication that is passed in is a stored row.
pub data Step (db db' : Database) : Type 0 where
  drafts :
      (env : Env) (organization : Organization) (args : DraftArgs) (v : OutputVersion)
      → draft env organization args db ≡ ok (v, db')
      → Step db db'
  approves :
      (env : Env) (v : OutputVersion) (actor stage : Text) (a : Approval)
      → approve env v actor stage db ≡ ok (a, db')
      → Step db db'
  signs :
      (env : Env) (o : Output) (reviewer actor discipline note : Text) (r : ExpertReview)
      → record_expert_signoff env o reviewer actor discipline note db ≡ ok (r, db')
      → Step db db'
  publishes :
      (env : Env) (v : OutputVersion) (organization : Organization) (actor : Text) (p : Publication)
      → Memᴰ v db.versions
      → publish env v organization actor db ≡ ok (p, db')
      → Step db db'
  unpublishes :
      (env : Env) (p : Publication) (actor reason : Text)
      → is_live p ≡ true
      → unpublish env p actor reason db ≡ ok (tt, db')
      → Step db db'
  delivers :
      (env : Env) (exports : Exports) (entries : List Recipient) (p : Publication)
      (formats : List Text) (actor note : Text) (d : Delivery)
      → Memᴰ p db.publications
      → deliver env exports entries p formats actor note db ≡ ok (d, db')
      → Step db db'

-- What is reached from a database that holds no version and no publication yet.
pub data Reach (db : Database) : Database → Type 0 where
  here : Reach db db
  next : {db' db'' : Database} → Reach db db' → Step db' db'' → Reach db db''

-- States that only an approval leads to.
abbrev pub is_past_approval : OutputState → Bool
is_past_approval OutputState.approved = true
is_past_approval OutputState.published = true
is_past_approval OutputState.delivered = true
is_past_approval _ = false

abbrev pub is_approval_of : ℕ → Approval → Bool
is_approval_of version a = a.version == version

-- What stands behind a publication: an approval of its exact version, and a sign-off of its output
-- where its type needs one.
pub record IsBacked (db : Database) (p : Publication) : Type 0 where
  pub approved : any (is_approval_of p.version) db.approvals ≡ true
  pub signed :
      requires_expert_review p.type ≡ true → any (is_sign_off_of p.output) db.reviews ≡ true

pub record IsGated (db : Database) : Type 0 where
  pub unique : IsLiveUnique db.publications
  pub approved :
      (v : OutputVersion)
      → Memᴰ v db.versions
      → is_past_approval v.state ≡ true
      → any (is_approval_of v.pk) db.approvals ≡ true
  pub backed : (p : Publication) → Memᴰ p db.publications → IsBacked db p
