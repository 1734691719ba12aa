-- ===== src/Publication/Addresses.antt =====
-- Who is mailed, and who has been: the addresses of apps/clients/contacts.py and of
-- `delivered_recipients` in apps/publication/delivery.py.
use trend_engine_backend.Base.{
  ℕ, Bool, true, false, ◌≡◌, ◌∙◌, inl, inr, refl, List, [], ◌∷◌, ◌++◌, any, arith, Text, eq_text,
  eq_text_iff, lower, strip, not, ◌||◌, ◌&&◌, ap, All, has_char, Bool-cases, Option-cases,
  Result-cases, ok, ok-injective, filter, find?, ◌==◌,
}
use trend_engine_backend.Tenancy.Context.{Tenant, unset, operator_all, bound}
use trend_engine_backend.Tenancy.Managers.{sees, get_queryset}
use trend_engine_backend.Store.Rows.{
  ClientContact, Delivery, Output, Publication, AuditKind, AuditContext,
}
use trend_engine_backend.Store.Database.{Database, Env}
use trend_engine_backend.Store.Queries.{is_live}
use trend_engine_backend.Publication.Recipients.{
  Recipient, is_client_contact, add_recipient, recipients_from, recipients_for, emails,
}
use trend_engine_backend.Publication.Gate.{
  add_new, collect_recipients, delivered_recipients, unpublish,
}

-- An address that may be mailed.
abbrev pub MayMail : List ClientContact → Recipient → Type 0
MayMail contacts r = (has_char b'@' r.email ≡ true) × (is_client_contact contacts r.email ≡ false)

-- Addresses of a list that are all different, each from those before it.
abbrev pub IsDistinct : List Text → Type 0
IsDistinct [] = Unit
IsDistinct (a ∷ as') = (any (eq_text a) as' ≡ false) × IsDistinct as'

All-append_one :
    {A : Type 0} (P : A → Type 0) (x : A) (xs : List A) → All P xs → P x → All P (xs ++ x ∷ [])
All-append_one P x [] h p = (p, tt)
All-append_one P x (y ∷ ys) h p = (h.0, All-append_one P x ys h.1 p)

eq_text_comm : (a b : Text) → eq_text a b ≡ eq_text b a
eq_text_comm [] [] = refl
eq_text_comm [] (y ∷ b) = refl
eq_text_comm (x ∷ a) [] = refl
eq_text_comm (x ∷ a) (y ∷ b) = ground (arith, eq_text_comm a b)

any-append_one :
    {A : Type 0} (p : A → Bool) (xs : List A) (x : A) → any p (xs ++ x ∷ []) ≡ (any p xs || p x)
any-append_one p [] x = ground arith
any-append_one p (y ∷ ys) x = ground (arith, any-append_one p ys x)

IsDistinct-append_one :
    (xs : List Text) (x : Text)
    → IsDistinct xs
    → any (eq_text x) xs ≡ false
    → IsDistinct (xs ++ x ∷ [])
IsDistinct-append_one [] x h new = (refl, tt)
IsDistinct-append_one (y ∷ ys) x h new = (
  ground (arith, any-append_one (eq_text y) ys x, eq_text_comm x y),
  IsDistinct-append_one ys x h.1 (ground arith),
)

-- `add_new` keeps a list of different addresses so.
add_new-IsDistinct : (seen xs : List Text) → IsDistinct seen → IsDistinct (add_new seen xs)
add_new-IsDistinct seen [] h = h
add_new-IsDistinct seen (x ∷ xs) h = elim (Bool-cases (any (eq_text x) seen)) [
  | inl old ↦ rw old (add_new-IsDistinct seen xs h)
  | inr new ↦ rw new (add_new-IsDistinct (seen ++ x ∷ []) xs (IsDistinct-append_one seen x h new))
]

any-eq_text :
    (a x : Text) (seen : List Text)
    → any (eq_text x) seen ≡ true
    → eq_text a x ≡ true
    → any (eq_text a) seen ≡ true
any-eq_text a x seen h e = rw ((eq_text_iff a x).0 e) h

add_new-members :
    (a : Text) (seen xs : List Text)
    → any (eq_text a) (add_new seen xs) ≡ (any (eq_text a) seen || any (eq_text a) xs)
add_new-members a seen [] = ground arith
add_new-members a seen (x ∷ xs) = elim (Bool-cases (any (eq_text x) seen)) [
  | inl old ↦ rw old (ground (arith, add_new-members a seen xs, any-eq_text a x seen old))
  | inr new ↦
      rw new
        (ground (arith, add_new-members a (seen ++ x ∷ []) xs, any-append_one (eq_text a) seen x))
]

-- What a withdrawal reports as delivered to is every address of every delivery of the record, and
-- each once.
collect_from :
    (a : Text) (seen : List Text) (ds : List Delivery)
    → IsDistinct seen
    → IsDistinct (collect_recipients seen ds)
      × (any (eq_text a) (collect_recipients seen ds)
          ≡ (any (eq_text a) seen || any (λ (d : Delivery). any (eq_text a) d.recipients) ds))
unfolding collect_recipients
collect_from a seen [] h = (h, ground arith)
collect_from a seen (d ∷ ds) h =
    let (distinct, members) =
      collect_from a (add_new seen d.recipients) ds (add_new-IsDistinct seen d.recipients h) in
    (distinct, ground (arith, members, add_new-members a seen d.recipients))

-- A delivery of the publication, visible under the tenant, that went to the address.
abbrev pub went_to : Env → Publication → Text → Delivery → Bool
went_to env p a d =
    sees env.tenant d.organization && ((d.publication == p.pk) && any (eq_text a) d.recipients)

-- What the filter to one publication leaves of the deliveries that went to an address.
any-of_record :
    (k : ℕ) (a : Text) (ds : List Delivery)
    → any
        (λ (d : Delivery). any (eq_text a) d.recipients)
        (filter (λ (d : Delivery). d.publication == k) ds)
      ≡ any (λ (d : Delivery). (d.publication == k) && any (eq_text a) d.recipients) ds
any-of_record k a [] = refl
any-of_record k a (d ∷ ds) = ground (arith, any-of_record k a ds)

any-filter_of :
    (p q : Delivery → Bool) (ds : List Delivery) → any q (filter p ds) ≡ any (λ d. p d && q d) ds
any-filter_of p q [] = refl
any-filter_of p q (d ∷ ds) = ground (arith, any-filter_of p q ds)

any-visible :
    (tenant : Tenant) (q : Delivery → Bool) (ds seen : List Delivery)
    → get_queryset (λ (d : Delivery). d.organization) tenant ds ≡ ok seen
    → any q seen ≡ any (λ (d : Delivery). sees tenant d.organization && q d) ds
unfolding get_queryset
any-visible unset q ds seen h = cc
any-visible operator_all q ds seen h = let e = ok-injective ds seen h in rw (← e) refl
any-visible (bound o) q ds seen h =
    let e = ok-injective (filter (λ (d : Delivery). d.organization == o) ds) seen h in
    rw (← e) (any-filter_of (λ d. d.organization == o) q ds)

-- The audit row of a withdrawal, and the addresses that it names.
abbrev pub NamesRecipients : Env → Publication → Text → Text → Database → Database → Text → Type 0
NamesRecipients env p actor reason db db' a =
    (delivered_to : List Text) × (db'.audit
      ≡ db.audit
        ++ record {
          kind = AuditKind.publication;
          actor_label = actor;
          organization = p.organization;
          context = AuditContext.unpublished p.pk reason delivered_to;
        }
          ∷ [])
    × IsDistinct delivered_to
    × (any (eq_text a) delivered_to ≡ any (went_to env p a) db.deliveries)

-- A withdrawal of a live publication that goes through adds one audit row, with its actor, its
-- organisation, its reason and addresses that are all different; an address is among them exactly
-- when some delivery of that very publication, of those that the tenant sees, went to it.
pub unpublish-NamesRecipients :
    (env : Env) (p : Publication) (actor reason : Text) (db db' : Database) (a : Text)
    → is_live p ≡ true
    → unpublish env p actor reason db ≡ ok (tt, db')
    → NamesRecipients env p actor reason db db' a
unfolding unpublish delivered_recipients
unpublish-NamesRecipients env p actor reason db db' a live h =
    elim (Option-cases (find? (λ (o : Output). o.pk == p.output) db.outputs)) [
      | inl missing ↦ cc (rw (live, missing) at h)
      | inr (output, found) ↦
          elim (Result-cases
            (get_queryset (λ (d : Delivery). d.organization) env.tenant db.deliveries)) [
              | inl (e, refused) ↦ cc (rw (live, found, refused) at h)
              | inr (seen, visible) ↦
                  (let of_record = filter (λ (d : Delivery). d.publication == p.pk) seen in
                    let (distinct, members) = collect_from a [] of_record tt in
                    let done = rw (live, found, visible) at h in
                    (
                      collect_recipients [] of_record,
                      ground (arith, done),
                      distinct,
                      members
                          ∙ any-of_record p.pk a seen
                          ∙ any-visible env.tenant
                              (λ d. (d.publication == p.pk) && any (eq_text a) d.recipients)
                              db.deliveries seen visible,
                    ))
            ]
    ]

any-emails :
    (a : Text) (rs : List Recipient)
    → any (λ (r : Recipient). eq_text r.email a) rs ≡ any (eq_text a) (emails rs)
any-emails a [] = refl
any-emails a (r ∷ rs) = ground (arith, any-emails a rs, eq_text_comm r.email a)

emails-append_one :
    (rs : List Recipient) (r : Recipient) → emails (rs ++ r ∷ []) ≡ emails rs ++ r.email ∷ []
emails-append_one [] r = refl
emails-append_one (x ∷ rs) r = ap (◌∷◌ x.email) (emails-append_one rs r)

-- What the loop keeps of the recipients chosen so far.
abbrev IsChosen : List ClientContact → List Recipient → Type 0
IsChosen contacts chosen = All (MayMail contacts) chosen × IsDistinct (emails chosen)

add_recipient-IsChosen :
    (contacts : List ClientContact) (entry : Recipient) (chosen : List Recipient)
    → IsChosen contacts chosen
    → IsChosen contacts (add_recipient contacts entry chosen)
add_recipient-IsChosen contacts entry chosen h =
    let email = lower (strip entry.email) in
    let r : Recipient = record { name = entry.name; email = email } in
    elim (Bool-cases
      (not (has_char b'@' email) || any (λ (r : Recipient). eq_text r.email email) chosen)) [
        | inl skipped ↦ rw skipped h
        | inr fresh ↦ elim (Bool-cases (is_client_contact contacts email)) [
          | inl client ↦ rw (fresh, client) h
          | inr other ↦
              rw (fresh, other)
                (
                  All-append_one (MayMail contacts) r chosen h.0 (ground arith, other),
                  rw (emails-append_one chosen r) (
                      IsDistinct-append_one (emails chosen) email h.1
                        (ground (arith, any-emails email chosen))),
                )
        ]
      ]

recipients_from-IsChosen :
    (contacts : List ClientContact) (entries chosen : List Recipient)
    → IsChosen contacts chosen
    → IsChosen contacts (recipients_from contacts entries chosen)
recipients_from-IsChosen contacts [] chosen h = h
recipients_from-IsChosen contacts (entry ∷ entries) chosen h =
    recipients_from-IsChosen contacts entries (add_recipient contacts entry chosen)
      (add_recipient-IsChosen contacts entry chosen h)

-- Whatever the settings list, the recipients chosen have an address each, none is a client
-- contact, and no address is chosen twice.
pub recipients_for_safe :
    (contacts : List ClientContact) (entries : List Recipient)
    → All (MayMail contacts) (recipients_for contacts entries)
      × IsDistinct (emails (recipients_for contacts entries))
unfolding recipients_for
recipients_for_safe contacts entries = recipients_from-IsChosen contacts entries [] (tt, tt)
