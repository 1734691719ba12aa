-- ===== src/Publication/Withdrawal.antt =====
-- What `unpublish` of apps/publication/services.py takes away, what it writes down, and what it
-- leaves.
use mathlib.Core.List.{Memᴰ}
use trend_engine_backend.Base.{
  true, false, ◌≡◌, ◌≢◌, refl, ◌∙◌, subst, [], ◌∷◌, ◌++◌, count_of, arith, ok, err,
  count_of-update_where-lt, mem-update_where, Text, update_where, ◌==◌, ==_refl, inl, inr,
  Bool-cases, if◌then◌else◌,
}
use trend_engine_backend.Store.Rows.{Organization, OutputState, OutputVersion, Publication, Effect}
use trend_engine_backend.Store.Database.{Database, Env, drafting_error}
use trend_engine_backend.Store.Queries.{is_live, is_live_for, with_version_state}
use trend_engine_backend.Outputs.Services.{approve}
use trend_engine_backend.Publication.Gate.{publish, unpublish, withdrawn, is_approved}
use trend_engine_backend.Publication.Outcome.{publish-Published}
use trend_engine_backend.Publication.Uniqueness.{IsLiveUnique}

-- The facts of a withdrawal that went through.
pub record Withdrawn (env : Env) (p : Publication) (actor reason : Text) (db db' : Database)
    : Type 0 where
  pub publications :
      db'.publications
      ≡ update_where (λ q. q.pk == p.pk) (withdrawn env.now actor reason) db.publications
  pub versions : db'.versions ≡ db.versions
  pub approvals : db'.approvals ≡ db.approvals
  pub reviews : db'.reviews ≡ db.reviews
  pub effects :
      db'.effects
      ≡ (db.effects ++ Effect.unpublished_signal p.pk reason ∷ [])
        ++ Effect.withdrawal_email p.pk ∷ []

pub unpublish-Withdrawn :
    (env : Env) (p : Publication) (actor reason : Text) (db db' : Database)
    → is_live p ≡ true
    → unpublish env p actor reason db ≡ ok (tt, db')
    → Withdrawn env p actor reason db db'
unfolding unpublish
unpublish-Withdrawn env p actor reason db db' live h = record {
  publications = ground arith;
  versions = ground arith;
  approvals = ground arith;
  reviews = ground arith;
  effects = ground arith;
}

-- Withdrawing a stored live publication, where at most one is live for each output and
-- organisation, leaves no live one of its output for its organisation: not an older version,
-- nothing.
pub unpublish_leaves_none :
    (env : Env) (p : Publication) (actor reason : Text) (db db' : Database)
    → IsLiveUnique db.publications
    → Memᴰ p db.publications
    → is_live p ≡ true
    → unpublish env p actor reason db ≡ ok (tt, db')
    → count_of (is_live_for p.organization p.output) db'.publications ≡ 0
unpublish_leaves_none env p actor reason db db' unique m live h =
    let out = unpublish-Withdrawn env p actor reason db db' live h in
    let fewer =
      count_of-update_where-lt (is_live_for p.organization p.output)
        (λ (q : Publication). q.pk == p.pk) (withdrawn env.now actor reason) p db.publications
        (λ y e. ground arith) m (==_refl p.pk) (ground arith) in
    rw out.publications (omega (arith, unique p.organization p.output, fewer))

-- A second withdrawal of the same record changes nothing and tells nobody.
pub unpublish_idle :
    (env : Env) (p : Publication) (actor reason : Text) (db : Database)
    → is_live p ≡ false
    → unpublish env p actor reason db ≡ ok (tt, db)
unfolding unpublish
unpublish_idle env p actor reason db h = ground arith

published_row :
    (v w x : OutputVersion)
    → w.pk ≡ v.pk
    → w ≡ (if x.pk == v.pk then with_version_state OutputState.published x else x)
    → w.state ≡ OutputState.published
published_row v w x same e = elim (Bool-cases (x.pk == v.pk)) [
  | inl yes' ↦ ground arith
  | inr no' ↦ ground arith
]

approve-eq-err :
    (env : Env) (w : OutputVersion) (actor stage : Text) (db : Database)
    → w.state ≡ OutputState.published
    → approve env w actor stage db ≡ err drafting_error
unfolding approve
approve-eq-err env w actor stage db h = ground arith

publish-ne-ok :
    (env : Env) (w : OutputVersion) (organization : Organization) (actor : Text) (db : Database)
    (r : Publication × Database)
    → w.state ≡ OutputState.published
    → publish env w organization actor db ≢ ok r
publish-ne-ok env w organization actor db r h e =
    let out = publish-Published env w organization actor db e in
    let never : is_approved w.state ≡ true = out.approved in ground arith

-- A version that was published and then withdrawn still reads published in its stored row, so it
-- can be neither approved nor published again, although it is not live.
pub withdrawn_version_locked :
    (env env' env'' : Env) (v : OutputVersion) (organization organization' : Organization)
    (actor actor' actor'' reason stage : Text) (db db' db'' : Database) (p : Publication)
    (w : OutputVersion)
    → publish env v organization actor db ≡ ok (p, db')
    → unpublish env' p actor' reason db' ≡ ok (tt, db'')
    → Memᴰ w db''.versions
    → w.pk ≡ v.pk
    → (w.state ≡ OutputState.published)
      × (approve env'' w actor'' stage db'' ≡ err drafting_error)
      × ((r : Publication × Database) → publish env'' w organization' actor'' db'' ≢ ok r)
withdrawn_version_locked env env' env'' v organization organization' actor actor' actor'' reason
      stage db db' db'' p w done undone m same =
    let out = publish-Published env v organization actor db done in
    let back = unpublish-Withdrawn env' p actor' reason db' db'' (rw out.row refl) undone in
    let (x, _, e) =
      mem-update_where (λ (u : OutputVersion). u.pk == v.pk)
        (with_version_state OutputState.published) w db.versions
        (subst (λ l. Memᴰ w l) (back.versions ∙ out.versions) m) in
    let state : w.state ≡ OutputState.published = published_row v w x same e in
    (
      state,
      approve-eq-err env'' w actor'' stage db'' state,
      λ r. publish-ne-ok env'' w organization' actor'' db'' r state,
    )
