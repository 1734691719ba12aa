-- ===== src/Publication/Preservation.antt =====
-- That the calls of apps/outputs/services.py, apps/publication/services.py and
-- apps/publication/delivery.py keep the gate, one by one and in any order.
use mathlib.Core.List.Memᴰ
use mathlib.Core.List.{Memᴰ}
use trend_engine_backend.Base.{
  ℕ, Bool, true, false, ◌≡◌, sym, subst, ap, List, [], ◌∷◌, ◌++◌, arith, ok, Text, any, any-append,
  any-append_right, update_where, mem-update_where, mem-append_one, ◌==◌, inl, inr, Bool-cases,
  if◌then◌else◌, ◌⊎◌,
}
use trend_engine_backend.Store.Rows.{
  Organization, Output, OutputState, OutputVersion, Approval, ExpertReview, Publication, Delivery,
}
use trend_engine_backend.Store.Database.{Database, Env, empty, commit_result}
use trend_engine_backend.Store.Queries.{is_live, with_version_state}
use trend_engine_backend.Outputs.Services.{DraftArgs, draft, approve, record_expert_signoff}
use trend_engine_backend.Outputs.Outcome.{
  draft-Drafted, approve-Approved, record_expert_signoff-SignedOff,
}
use trend_engine_backend.Publication.Gate.{
  publish, unpublish, is_sign_off_of, is_approved, superseded, withdrawn, is_incumbent,
}
use trend_engine_backend.Publication.Recipients.{Recipient}
use trend_engine_backend.Publication.Delivery.{Exports, deliver, with_notified_at}
use trend_engine_backend.Publication.Outcome.{publish-Published}
use trend_engine_backend.Publication.Uniqueness.{
  IsLiveUnique, publish-IsLiveUnique, IsLiveUnique-update,
}
use trend_engine_backend.Publication.Withdrawal.{unpublish-Withdrawn}
use trend_engine_backend.Publication.Delivered.{deliver-Delivered, deliver-versions}
use trend_engine_backend.Publication.Lifecycle.{
  Step, drafts, approves, signs, publishes, unpublishes, delivers, Reach, here, next,
  is_past_approval, is_approval_of, IsBacked, IsGated,
}

abbrev AreApproved : List OutputVersion → List Approval → Type 0
AreApproved versions approvals =
    (v : OutputVersion)
    → Memᴰ v versions
    → is_past_approval v.state ≡ true
    → any (is_approval_of v.pk) approvals ≡ true

-- Approvals are only added.
abbrev Grows : List Approval → List Approval → Type 0
Grows approvals approvals' =
    (k : ℕ) → any (is_approval_of k) approvals ≡ true → any (is_approval_of k) approvals' ≡ true

row_pk :
    (v x : OutputVersion) (k : ℕ) (s : OutputState)
    → v ≡ (if x.pk == k then with_version_state s x else x)
    → (v.pk ≡ k) ⊎ (v ≡ x)
row_pk v x k s e = elim (Bool-cases (x.pk == k)) [
  | inl t ↦ inl (ground arith)
  | inr f ↦ inr (rw f at e)
]

AreApproved-save :
    (k : ℕ) (s : OutputState) (versions : List OutputVersion) (approvals approvals' : List Approval)
    → AreApproved versions approvals
    → Grows approvals approvals'
    → any (is_approval_of k) approvals' ≡ true
    → AreApproved (update_where (λ v. v.pk == k) (with_version_state s) versions) approvals'
AreApproved-save k s versions approvals approvals' h grows there v m past =
    let (x, below, e) =
      mem-update_where (λ (u : OutputVersion). u.pk == k) (with_version_state s) v versions m in
    elim (row_pk v x k s e) [
      | inl same ↦ subst (λ j. any (is_approval_of j) approvals' ≡ true) (sym same) there
      | inr same ↦ grows v.pk (h v (subst (λ u. Memᴰ u versions) (sym same) below) past)
    ]

IsBacked-if :
    (db : Database) (b : Bool) (x y p : Publication)
    → p ≡ (if b then y else x)
    → IsBacked db x
    → IsBacked db y
    → IsBacked db p
IsBacked-if db true x y p e hx hy = subst (IsBacked db) (sym e) hy
IsBacked-if db false x y p e hx hy = subst (IsBacked db) (sym e) hx

abbrev AreBacked : Database → List Publication → Type 0
AreBacked db publications = (p : Publication) → Memᴰ p publications → IsBacked db p

-- An update of publications that keeps what their backing is about.
AreBacked-update :
    (db : Database) (q : Publication → Bool) (f : Publication → Publication)
    (publications : List Publication)
    → ((p : Publication) → IsBacked db p → IsBacked db (f p))
    → AreBacked db publications
    → AreBacked db (update_where q f publications)
AreBacked-update db q f publications keeps h p m =
    let (x, below, e) = mem-update_where q f p publications m in
    IsBacked-if db (q x) x (f x) p e (h x below) (keeps x (h x below))

IsBacked-mono :
    (db db' : Database) (p : Publication)
    → Grows db.approvals db'.approvals
    → ((k : ℕ)
        → any (is_sign_off_of k) db.reviews ≡ true
        → any (is_sign_off_of k) db'.reviews ≡ true)
    → IsBacked db p
    → IsBacked db' p
IsBacked-mono db db' p grows sign_offs h = record {
  approved = grows p.version h.approved;
  signed = λ need. sign_offs p.output (h.signed need);
}

approved_past : (v : OutputVersion) → is_approved v.state ≡ true → is_past_approval v.state ≡ true
approved_past v h = ground arith

module _ (db db' : Database) (g : IsGated db) where
  drafts-IsGated :
      (env : Env) (organization : Organization) (args : DraftArgs) (v : OutputVersion)
      → draft env organization args db ≡ ok (v, db')
      → IsGated db'
  drafts-IsGated env organization args v h =
      let out = draft-Drafted env organization args db h in
      record {
        unique = rw out.publications g.unique;
        approved = λ w m past.
            rw out.approvals (elim (mem-append_one w v db.versions (rw out.versions at m)) [
              | inl old ↦ g.approved w old past
              | inr new ↦
                  absurd (let s : w.state ≡ OutputState.draft = rw new out.state in ground arith)
            ]);
        backed = λ p m.
            IsBacked-mono db db' p (λ k a. rw out.approvals a) (λ k a. rw out.reviews a)
              (g.backed p (rw out.publications at m));
      }

  approves-IsGated :
      (env : Env) (v : OutputVersion) (actor stage : Text) (a : Approval)
      → approve env v actor stage db ≡ ok (a, db')
      → IsGated db'
  approves-IsGated env v actor stage a h =
      let out = approve-Approved env v actor stage db h in
      let grows = λ (k : ℕ) (x : any (is_approval_of k) db.approvals ≡ true).
        any-append (is_approval_of k) db.approvals (a ∷ []) x in
      let there : any (is_approval_of v.pk) (db.approvals ++ a ∷ []) ≡ true =
        any-append_right (is_approval_of v.pk) db.approvals (a ∷ [])
          (let e : a.version ≡ v.pk = out.names in ground arith) in
      record {
        unique = rw out.publications g.unique;
        approved =
            rw (out.versions, out.approvals)
              (AreApproved-save v.pk OutputState.approved db.versions db.approvals
                (db.approvals ++ a ∷ []) g.approved grows there);
        backed = λ p m.
            IsBacked-mono db db' p (λ k x. rw out.approvals (grows k x)) (λ k x. rw out.reviews x)
              (g.backed p (rw out.publications at m));
      }

  signs-IsGated :
      (env : Env) (o : Output) (reviewer actor discipline note : Text) (r : ExpertReview)
      → record_expert_signoff env o reviewer actor discipline note db ≡ ok (r, db')
      → IsGated db'
  signs-IsGated env o reviewer actor discipline note r h =
      let out = record_expert_signoff-SignedOff env o reviewer actor discipline note db h in
      record {
        unique = rw out.publications g.unique;
        approved = rw (out.versions, out.approvals) g.approved;
        backed = λ p m.
            IsBacked-mono db db' p (λ k x. rw out.approvals x)
              (λ k x. rw out.reviews (any-append (is_sign_off_of k) db.reviews (r ∷ []) x))
              (g.backed p (rw out.publications at m));
      }

module _ (db db' : Database) (g : IsGated db) where
  publishes-IsGated :
      (env : Env) (v : OutputVersion) (organization : Organization) (actor : Text) (p : Publication)
      → Memᴰ v db.versions
      → publish env v organization actor db ≡ ok (p, db')
      → IsGated db'
  publishes-IsGated env v organization actor p m h =
      let out = publish-Published env v organization actor db h in
      let there = g.approved v m (approved_past v out.approved) in
      let grows = λ (k : ℕ) (x : any (is_approval_of k) db.approvals ≡ true). x in
      let new : IsBacked db p = rw out.row (record { approved = there; signed = out.signed }) in
      record {
        unique =
            subst IsLiveUnique (ap (λ r. (commit_result db r).publications) h)
              (publish-IsLiveUnique env v organization actor db g.unique);
        approved =
            rw (out.versions, out.approvals)
              (AreApproved-save v.pk OutputState.published db.versions db.approvals db.approvals
                g.approved grows there);
        backed = λ q n.
            IsBacked-mono db db' q (λ k x. rw out.approvals x) (λ k x. rw out.reviews x)
              (elim (mem-append_one q p
                (update_where (is_incumbent env out.output.pk) (superseded env.now actor)
                  db.publications)
                (rw out.publications at n)) [
                  | inl old ↦
                      AreBacked-update db (is_incumbent env out.output.pk)
                        (superseded env.now actor) db.publications
                        (λ x b. record { approved = b.approved; signed = b.signed }) g.backed q old
                  | inr e ↦ subst (IsBacked db) (sym e) new
                ]);
      }

  unpublishes-IsGated :
      (env : Env) (p : Publication) (actor reason : Text)
      → is_live p ≡ true
      → unpublish env p actor reason db ≡ ok (tt, db')
      → IsGated db'
  unpublishes-IsGated env p actor reason live h =
      let out = unpublish-Withdrawn env p actor reason db db' live h in
      record {
        unique = rw out.publications (
            IsLiveUnique-update (λ q. q.pk == p.pk) (withdrawn env.now actor reason) db.publications
              (λ o k q e. ground arith) g.unique);
        approved = rw (out.versions, out.approvals) g.approved;
        backed = λ q n.
            IsBacked-mono db db' q (λ k x. rw out.approvals x) (λ k x. rw out.reviews x)
              (AreBacked-update db (λ q. q.pk == p.pk) (withdrawn env.now actor reason)
                db.publications (λ x b. record { approved = b.approved; signed = b.signed })
                g.backed q (rw out.publications at n));
      }

  delivers-IsGated :
      (env : Env) (exports : Exports) (entries : List Recipient) (p : Publication)
      (formats : List Text) (actor note : Text) (d : Delivery)
      → Memᴰ p db.publications
      → deliver env exports entries p formats actor note db ≡ ok (d, db')
      → IsGated db'
  delivers-IsGated env exports entries p formats actor note d m h =
      let out = deliver-Delivered env exports entries p formats actor note db h in
      let versions = deliver-versions env exports entries p formats actor note db h in
      record {
        unique = rw out.publications (
            IsLiveUnique-update (λ q. q.pk == p.pk) (with_notified_at env.now) db.publications
              (λ o k q e. e) g.unique);
        approved =
            rw (versions, out.approvals)
              (AreApproved-save p.version OutputState.delivered db.versions db.approvals
                db.approvals g.approved (λ k x. x) (g.backed p m).approved);
        backed = λ q n.
            IsBacked-mono db db' q (λ k x. rw out.approvals x) (λ k x. rw out.reviews x)
              (AreBacked-update db (λ q. q.pk == p.pk) (with_notified_at env.now) db.publications
                (λ x b. record { approved = b.approved; signed = b.signed }) g.backed q
                (rw out.publications at n));
      }

-- Every call that goes through keeps the gate: one live publication for each output and tenant, an
-- approval behind every version that is past it, and behind every publication an approval of its
-- version and, where its type needs one, an expert's sign-off.
pub Step-IsGated : (db db' : Database) → Step db db' → IsGated db → IsGated db'
Step-IsGated db db' (drafts env organization args v h) g =
    drafts-IsGated db db' g env organization args v h
Step-IsGated db db' (approves env v actor stage a h) g =
    approves-IsGated db db' g env v actor stage a h
Step-IsGated db db' (signs env o reviewer actor discipline note r h) g =
    signs-IsGated db db' g env o reviewer actor discipline note r h
Step-IsGated db db' (publishes env v organization actor p m h) g =
    publishes-IsGated db db' g env v organization actor p m h
Step-IsGated db db' (unpublishes env p actor reason live h) g =
    unpublishes-IsGated db db' g env p actor reason live h
Step-IsGated db db' (delivers env exports entries p formats actor note d m h) g =
    delivers-IsGated db db' g env exports entries p formats actor note d m h

-- From a database that keeps the gate, no sequence of drafts, approvals, sign-offs, publications,
-- withdrawals and deliveries that go through leads to one that does not: one live publication for
-- each output and tenant, an approval behind every version that is past it, and behind every
-- publication an approval of its exact version and, where its type needs one, an expert sign-off.
pub Reach-IsGated : (db db' : Database) → IsGated db → Reach db db' → IsGated db'
Reach-IsGated db db' g here = g
Reach-IsGated db db' g (next {db' = mid} r s) = Step-IsGated mid db' s (Reach-IsGated db mid g r)

pub empty-IsGated : IsGated empty
empty-IsGated = record {
  unique = λ o k. omega arith;
  approved = λ v m. absurd (Memᴰ.not-nil m);
  backed = λ p m. absurd (Memᴰ.not-nil m);
}
