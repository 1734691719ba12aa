-- ===== src/Publication/Tests.antt =====
-- Runs of the gate of apps/publication and of apps/outputs/services.py at a small database.
use mathlib.Core.List.{Memᴰ}
use trend_engine_backend.Base.{
  ◌++◌, true, false, ◌≡◌, ◌≢◌, ◌<◌, refl, none, some, List, [], ◌∷◌, ok, err, codes, All, any,
  count_of, is_empty, arith,
}
use trend_engine_backend.Tenancy.Context.{operator_all}
use trend_engine_backend.Tenancy.Managers.{get_queryset}
use trend_engine_backend.Store.Rows.{
  Organization, Output, OutputType, OutputState, OutputVersion, Publication, Delivery,
  requires_expert_review,
}
use trend_engine_backend.Store.Database.{Database, Env, drafting_error, empty, commit}
use trend_engine_backend.Store.Queries.{is_live, is_live_for, has_number}
use trend_engine_backend.Outputs.Services.{DraftArgs, draft, approve}
use trend_engine_backend.Outputs.Outcome.{draft_number_above}
use trend_engine_backend.Publication.Gate.{publish, unpublish, snapshot}
use trend_engine_backend.Publication.Recipients.{
  Recipient, recipients_for, emails, is_client_contact,
}
use trend_engine_backend.Publication.Delivery.{Exports, deliver, mem_text}
use trend_engine_backend.Publication.Uniqueness.{
  IsLiveUnique, publish-IsLiveUnique, publish_sole_live, publish_succeeds,
}
use trend_engine_backend.Publication.Withdrawal.{unpublish_leaves_none, withdrawn_version_locked}
use trend_engine_backend.Publication.Addresses.{
  MayMail, IsDistinct, NamesRecipients, unpublish-NamesRecipients, recipients_for_safe,
}
use trend_engine_backend.Publication.Delivered.{deliver_safe}
use trend_engine_backend.Publication.Lifecycle.{here, next, drafts, IsGated}
use trend_engine_backend.Publication.Preservation.{Reach-IsGated, empty-IsGated}

abbrev operators : Env
operators = record { tenant = operator_all; now = 1000 }

abbrev jarrow : Organization
jarrow = record { pk = 1; name = codes "Jarrow"; is_fixture = false }

abbrev queue : Output
queue = record {
  pk = 1;
  organization = 1;
  type = OutputType.content_queue;
  title = codes "Queue";
  state = OutputState.approved;
  client_profile_version = [];
  domain_pack_version = [];
  is_illustrative = false;
  recommendation = none;
}

abbrev second : OutputVersion
second = record {
  pk = 3;
  organization = 1;
  output = 1;
  number = 2;
  summary = codes "s";
  body = codes "b" ∷ [];
  state = OutputState.approved;
  created_by_label = codes "op";
}

-- The first version is live.
abbrev incumbent : Publication
incumbent = snapshot (record second { pk = 2; number = 1 }) queue jarrow (codes "op") 4

abbrev stored : Database
stored = record empty {
  outputs = queue ∷ [];
  versions = record second { pk = 2; number = 1; state = OutputState.published } ∷ second ∷ [];
  approvals =
      record {
        organization = 1;
        version = 2;
        stage = codes "operator";
        approver_label = codes "op";
      }
      ∷ record {
        organization = 1;
        version = 3;
        stage = codes "operator";
        approver_label = codes "op";
      }
      ∷ [];
  publications = incumbent ∷ [];
  contacts = record { organization = 1; email = codes "Ann@client.com" } ∷ [];
  next_pk = 5;
}

abbrev published : Database
published = commit (publish operators second jarrow (codes "op")) stored

abbrev current : Publication
current = snapshot second queue jarrow (codes "op") 5

stored-IsLiveUnique : IsLiveUnique stored.publications
stored-IsLiveUnique o k = ground arith

published-IsLiveUnique : IsLiveUnique published.publications
published-IsLiveUnique =
    publish-IsLiveUnique operators second jarrow (codes "op") stored stored-IsLiveUnique

publish_runs : publish operators second jarrow (codes "op") stored ≡ ok (current, published)
unfolding publish get_queryset requires_expert_review
publish_runs = refl

publish_sole_live_example :
    (count_of (is_live_for 1 1) published.publications ≡ 1)
    × Memᴰ current published.publications
    × (is_live_for 1 1 current ≡ true)
publish_sole_live_example =
    publish_sole_live operators second jarrow (codes "op") stored publish_runs

publish_succeeds_example :
    (db' : Database) × (publish operators second jarrow (codes "op") stored ≡ ok (current, db'))
unfolding get_queryset requires_expert_review
publish_succeeds_example =
    publish_succeeds operators second jarrow (codes "op") stored {output = queue} {reviews = []}
      refl refl refl refl (λ need. need)

abbrev withdrawn_db : Database
withdrawn_db = commit (unpublish operators current (codes "op") (codes "wrong quote")) published

unpublish_runs :
    unpublish operators current (codes "op") (codes "wrong quote") published ≡ ok (tt, withdrawn_db)
unfolding publish unpublish get_queryset requires_expert_review
unpublish_runs = refl

unpublish_leaves_none_example : count_of (is_live_for 1 1) withdrawn_db.publications ≡ 0
unpublish_leaves_none_example =
    unpublish_leaves_none operators current (codes "op") (codes "wrong quote") published
      withdrawn_db published-IsLiveUnique publish_sole_live_example.1 refl unpublish_runs

-- The row of the second version after its publication.
abbrev second_row : OutputVersion
second_row = record second { state = OutputState.published }

abbrev gone : Publication
gone = record current { unpublished_at = some 5 }

withdrawn_version_locked_example :
    (second_row.state ≡ OutputState.published)
    × (approve operators second_row (codes "op") (codes "operator") withdrawn_db
        ≡ err drafting_error)
    × ((r : Publication × Database)
        → publish operators second_row jarrow (codes "op") withdrawn_db ≢ ok r)
unfolding publish unpublish get_queryset requires_expert_review
withdrawn_version_locked_example =
    withdrawn_version_locked operators operators operators second jarrow jarrow (codes "op")
      (codes "op") (codes "op") (codes "wrong quote") (codes "operator") stored published
      withdrawn_db current second_row publish_runs unpublish_runs (Memᴰ.tail (Memᴰ.head refl)) refl

abbrev two_sends : List Delivery
two_sends =
    record {
      pk = 8;
      organization = 1;
      publication = 5;
      recipients = codes "a@x" ∷ codes "b@x" ∷ [];
      formats = codes "pdf" ∷ [];
      note = [];
      sent_by_label = codes "op";
    }
    ∷ record {
      pk = 9;
      organization = 1;
      publication = 5;
      recipients = codes "b@x" ∷ [];
      formats = codes "pdf" ∷ [];
      note = [];
      sent_by_label = codes "op";
    }
    ∷ []

-- Of three sends, one of another publication.
abbrev sent_db : Database
sent_db = record published {
  deliveries =
      two_sends
      ++ record {
        pk = 10;
        organization = 1;
        publication = 4;
        recipients = codes "c@x" ∷ [];
        formats = codes "pdf" ∷ [];
        note = [];
        sent_by_label = codes "op";
      }
        ∷ [];
}

abbrev taken_back : Database
taken_back = commit (unpublish operators current (codes "op") (codes "wrong quote")) sent_db

taken_back_runs :
    unpublish operators current (codes "op") (codes "wrong quote") sent_db ≡ ok (tt, taken_back)
unfolding publish unpublish get_queryset requires_expert_review
taken_back_runs = refl

unpublish-NamesRecipients_example :
    NamesRecipients operators current
      (codes "op")
      (codes "wrong quote")
      sent_db
      taken_back
      (codes "b@x")
unpublish-NamesRecipients_example =
    unpublish-NamesRecipients operators current (codes "op") (codes "wrong quote") sent_db
      taken_back (codes "b@x") refl taken_back_runs

-- A client's address, the reviewer's twice, and a text that is no address.
abbrev entries : List Recipient
entries =
    record { name = []; email = codes " ANN@client.com" }
    ∷ record { name = codes "Mark"; email = codes "mark@pureplay.com" }
    ∷ record { name = []; email = codes "Mark@pureplay.com " }
    ∷ record { name = []; email = codes "nobody" }
    ∷ []

recipients_for_safe_example :
    All (MayMail stored.contacts) (recipients_for stored.contacts entries)
    × IsDistinct (emails (recipients_for stored.contacts entries))
recipients_for_safe_example = recipients_for_safe stored.contacts entries

only_the_reviewer : emails (recipients_for stored.contacts entries) ≡ codes "mark@pureplay.com" ∷ []
unfolding recipients_for
only_the_reviewer = refl

abbrev exports : Exports
exports = record {
  available = codes "html" ∷ codes "csv" ∷ [];
  render = λ document fmt. record {
    format = fmt;
    filename = document.title;
    byte_size = 1;
    sha256 = [];
  };
}

abbrev sent : Delivery
sent = record {
  pk = 6;
  organization = 1;
  publication = 5;
  recipients = codes "mark@pureplay.com" ∷ [];
  formats = codes "html" ∷ [];
  note = [];
  sent_by_label = codes "op";
}

abbrev delivered_db : Database
delivered_db =
    commit
      (deliver operators exports entries current (codes "pdf" ∷ codes "html" ∷ []) (codes "op") [])
      published

deliver_runs :
    deliver operators exports entries current
      (codes "pdf" ∷ codes "html" ∷ [])
      (codes "op")
      []
      published
    ≡ ok (sent, delivered_db)
unfolding publish deliver get_queryset requires_expert_review recipients_for
deliver_runs = refl

deliver_safe_example :
    (is_live current ≡ true)
    × (is_empty sent.recipients ≡ false)
    × IsDistinct sent.recipients
    × All (λ email. is_client_contact published.contacts email ≡ false) sent.recipients
    × (is_empty sent.formats ≡ false)
    × All (λ fmt. mem_text fmt exports.available ≡ true) sent.formats
deliver_safe_example =
    deliver_safe operators exports entries current (codes "pdf" ∷ codes "html" ∷ []) (codes "op") []
      published deliver_runs

abbrev queue_args : DraftArgs
queue_args = record {
  type = OutputType.content_queue;
  title = codes "Queue";
  sections = codes "b" ∷ [];
  summary = [];
  actor_label = codes "op";
  client_profile_version = [];
  domain_pack_version = [];
  is_illustrative = false;
  recommendation = none;
}

abbrev third : OutputVersion
third = record second { pk = 5; number = 3; summary = []; state = OutputState.draft }

draft_runs :
    draft operators jarrow queue_args stored
    ≡ ok (third, commit (draft operators jarrow queue_args) stored)
unfolding draft get_queryset
draft_runs = refl

draft_number_above_example :
    (2 < third.number) × (any (has_number third.output third.number) stored.versions ≡ false)
unfolding get_queryset
draft_number_above_example =
    draft_number_above operators jarrow queue_args stored {seen = stored.versions} second draft_runs
      refl (Memᴰ.tail (Memᴰ.head refl)) refl

abbrev first_draft : Database
first_draft = commit (draft operators jarrow queue_args) empty

abbrev first : OutputVersion
first = record third { pk = 2; output = 1; number = 1 }

first_draft_runs : draft operators jarrow queue_args empty ≡ ok (first, first_draft)
unfolding draft get_queryset
first_draft_runs = refl

Reach-IsGated_example : IsGated first_draft
Reach-IsGated_example =
    Reach-IsGated empty first_draft empty-IsGated
      (next here (drafts operators jarrow queue_args first first_draft_runs))
