-- ===== src/Publication/Delivered.antt =====
-- What `deliver` of apps/publication/delivery.py needs and what it records.
use trend_engine_backend.Base.{
  Bool, true, false, ◌≡◌, refl, List, [], ◌∷◌, ◌++◌, arith, ok, Text, All, update_where, ◌==◌,
  is_empty, find?, find?-eq-some, ==_iff, inl, inr, Option-cases, Bool-cases, filter,
}
use trend_engine_backend.Store.Rows.{
  ClientContact, OutputState, OutputVersion, Publication, Delivery,
}
use trend_engine_backend.Store.Database.{Database, Env}
use trend_engine_backend.Store.Queries.{is_live, with_version_state}
use trend_engine_backend.Publication.Recipients.{
  Recipient, recipients_for, emails, is_client_contact,
}
use trend_engine_backend.Publication.Delivery.{
  Exports, deliver, chosen_formats, with_notified_at, mem_text,
}
use trend_engine_backend.Publication.Addresses.{MayMail, IsDistinct, recipients_for_safe}

-- The facts of a delivery that went through.
pub record Delivered (env : Env) (exports : Exports) (entries : List Recipient) (p : Publication)
    (formats : List Text) (db : Database) (d : Delivery) (db' : Database) : Type 0 where
  pub live : is_live p ≡ true
  pub someone : is_empty d.recipients ≡ false
  pub sent_to : d.recipients ≡ emails (recipients_for db.contacts entries)
  pub some_format : is_empty d.formats ≡ false
  pub sent_as : d.formats ≡ chosen_formats exports formats
  pub about : d.publication ≡ p.pk
  pub deliveries : db'.deliveries ≡ db.deliveries ++ d ∷ []
  pub publications :
      db'.publications ≡ update_where (λ q. q.pk == p.pk) (with_notified_at env.now) db.publications
  pub approvals : db'.approvals ≡ db.approvals
  pub reviews : db'.reviews ≡ db.reviews

not_empty-emails : (rs : List Recipient) → is_empty rs ≡ false → is_empty (emails rs) ≡ false
not_empty-emails [] h = h
not_empty-emails (r ∷ rs) h = refl

pub deliver-Delivered :
    (env : Env) (exports : Exports) (entries : List Recipient) (p : Publication)
    (formats : List Text) (actor note : Text) (db : Database) {d : Delivery} {db' : Database}
    → deliver env exports entries p formats actor note db ≡ ok (d, db')
    → Delivered env exports entries p formats db d db'
unfolding deliver
deliver-Delivered env exports entries p formats actor note db h = record {
  live = ground arith;
  someone = ground (arith, not_empty-emails (recipients_for db.contacts entries));
  sent_to = ground arith;
  some_format = ground arith;
  sent_as = ground arith;
  about = ground arith;
  deliveries = ground arith;
  publications = ground arith;
  approvals = ground arith;
  reviews = ground arith;
}

-- The version whose row is marked delivered is the publication's.
pub deliver-versions :
    (env : Env) (exports : Exports) (entries : List Recipient) (p : Publication)
    (formats : List Text) (actor note : Text) (db : Database) {d : Delivery} {db' : Database}
    → deliver env exports entries p formats actor note db ≡ ok (d, db')
    → db'.versions
      ≡ update_where (λ v. v.pk == p.version) (with_version_state OutputState.delivered) db.versions
unfolding deliver
deliver-versions env exports entries p formats actor note db h =
    elim (Option-cases (find? (λ (v : OutputVersion). v.pk == p.version) db.versions)) [
      | inl e ↦ ground arith
      | inr (v, e) ↦
          (let passes =
              (find?-eq-some (λ (v : OutputVersion). v.pk == p.version) v db.versions e).1 in
            let same : v.pk ≡ p.version = (==_iff v.pk p.version).0 passes in
            rw (← same) (ground arith))
    ]

All-emails :
    (contacts : List ClientContact) (rs : List Recipient)
    → All (MayMail contacts) rs
    → All (λ email. is_client_contact contacts email ≡ false) (emails rs)
All-emails contacts [] h = tt
All-emails contacts (r ∷ rs) h = (h.0.1, All-emails contacts rs h.1)

All-filter : (p : Text → Bool) (xs : List Text) → All (λ x. p x ≡ true) (filter p xs)
All-filter p [] = tt
All-filter p (x ∷ xs) = elim (Bool-cases (p x)) [
  | inl e ↦ rw e (e, All-filter p xs)
  | inr e ↦ rw e (All-filter p xs)
]

-- A delivery that goes through is of a live publication, to at least one address, to no client
-- contact and to none twice, in at least one format, all of them available.
pub deliver_safe :
    (env : Env) (exports : Exports) (entries : List Recipient) (p : Publication)
    (formats : List Text) (actor note : Text) (db : Database) {d : Delivery} {db' : Database}
    → deliver env exports entries p formats actor note db ≡ ok (d, db')
    → (is_live p ≡ true)
      × (is_empty d.recipients ≡ false)
      × IsDistinct d.recipients
      × All (λ email. is_client_contact db.contacts email ≡ false) d.recipients
      × (is_empty d.formats ≡ false)
      × All (λ fmt. mem_text fmt exports.available ≡ true) d.formats
deliver_safe env exports entries p formats actor note db h =
    let out = deliver-Delivered env exports entries p formats actor note db h in
    let safe = recipients_for_safe db.contacts entries in
    (
      out.live,
      out.someone,
      rw out.sent_to safe.1,
      rw out.sent_to (All-emails db.contacts (recipients_for db.contacts entries) safe.0),
      out.some_format,
      rw out.sent_as (All-filter (λ fmt. mem_text fmt exports.available) formats),
    )
