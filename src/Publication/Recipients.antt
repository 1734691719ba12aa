-- ===== src/Publication/Recipients.antt =====
-- apps/clients/contacts.py (who is mailed) and apps/publication/delivery.py (`delivered_recipients`):
-- the addresses that a document goes to and has gone to.
use trend_engine_backend.Base.{
  Bool, ◌||◌, not, List, [], ◌∷◌, ◌++◌, map, any, if◌then◌else◌, Text, eq_text, lower, strip,
  has_char,
}
use trend_engine_backend.Store.Rows.{ClientContact}

pub record Recipient : Type 0 where
  pub name : Text
  pub email : Text

-- `is_client_contact`, over the contacts of every tenant.
abbrev pub is_client_contact : List ClientContact → Text → Bool
is_client_contact contacts email =
    any (λ (c : ClientContact). eq_text (lower c.email) (lower (strip email))) contacts

-- One entry of `OUTPUT_REVIEW_RECIPIENTS`, as `parseaddr` takes it apart.
abbrev pub add_recipient : List ClientContact → Recipient → List Recipient → List Recipient
add_recipient contacts entry chosen =
    let email = lower (strip entry.email) in
    if not (has_char b'@' email) || any (λ (r : Recipient). eq_text r.email email) chosen
    then chosen
    else if is_client_contact contacts email
    then chosen
    else chosen ++ record { name = entry.name; email = email } ∷ []

abbrev pub recipients_from : List ClientContact → List Recipient → List Recipient → List Recipient
recipients_from contacts [] chosen = chosen
recipients_from contacts (entry ∷ entries) chosen =
    recipients_from contacts entries (add_recipient contacts entry chosen)

-- `recipients_for`, whose answer does not depend on the organisation.
unfoldable pub recipients_for : List ClientContact → List Recipient → List Recipient
recipients_for contacts entries = recipients_from contacts entries []

-- `[recipient.email for recipient in recipients]`
abbrev pub emails : List Recipient → List Text
emails = map (λ r. r.email)
